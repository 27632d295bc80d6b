-- ===== src/ChatStore/Messages/Continue/Outcome.antt =====
-- How a run of the tools ends.
use gpt.Prelude.{
  String, ◌≡◌, refl, ap, ◌∙◌, ◌⊎◌, inl, inr, true, false, some, List, [], Bool-cases, get_or,
  Result, ok, err, Dict, lookup, lookup-insert_self, Result-cases,
}
use gpt.Types.{Chat, Message, Model, ToolResult}
use gpt.ChatStore.State.{ChatState, World, set_state}
use gpt.ChatStore.Nodes.Pick.{NodeChoice}
use gpt.ChatStore.Setters.Chat.{set_active_leaf}
use gpt.ChatStore.Setters.Status.{set_active_chat_job}
use gpt.ChatStore.Messages.{Env, ai_message, connect, put_messages}
use gpt.ChatStore.Messages.Tools.{ToolEnv, run_calls}
use gpt.ChatStore.Messages.Continue.{
  Backend, change_message, continue_request, continued, fail_if_error, go_on, is_queued,
  processing_key, run_and_continue_from_tools, run_tools, set_processing, store_if_missing,
  tools_target, with_error,
}

-- The last step of every run.
abbrev pub finish : String → String → World → World
finish chat_id message_id w = set_state (set_processing (processing_key chat_id message_id) false) w

-- There is an answer to the message that called the tools, it is the active leaf, and the chat works
-- on its job.
abbrev pub IsContinued : String → String → String → String → ChatState → Type 0
IsContinued chat_id message_id ai_id job_id s =
    ((a : Message) × (messages : Dict Message) × (lookup chat_id s.messages ≡ some messages)
      × (lookup ai_id messages ≡ some a)
      × (a.parent_message_id ≡ some message_id)
      × (a.job_id ≡ some job_id))
    × (lookup chat_id s.active_leaf_message_id ≡ some (some ai_id))
    × (lookup chat_id s.active_chat_jobs
        ≡ some (record { job_id = job_id; errored_via_stream = some false }))

err_injective : {x y : String} (r : Result (Unit {0})) → r ≡ err x → r ≡ err y → x ≡ y
err_injective r h k = cc

module _ (env : Env) (tools : ToolEnv) (backend : Backend) (chat_id message_id : String) where
  -- What the `try` gives: an error, a message that waits in the queue, or a new job.
  abbrev Ends : World × Result (Unit {0}) → Type 0
  Ends (w, answer) =
      ((e : String) × (answer ≡ err e))
      ⊎ ((answer ≡ ok tt) × (is_queued message_id w.store ≡ true))
      ⊎ ((n : NodeChoice) × (ai_id job_id : String) × (opened : World) × (answer ≡ ok tt)
          × (w ≡ connect env chat_id job_id n opened)
          × IsContinued chat_id message_id ai_id job_id opened.store)

  continued-IsContinued :
      (m : Model) (ai_id job_id : String) (w : World)
      → IsContinued chat_id message_id ai_id job_id
          (continued env tools backend chat_id message_id m ai_id job_id w).store
  unfolding continued set_active_leaf set_active_chat_job ai_message put_messages
  continued-IsContinued m ai_id job_id w = (
    (
      _,
      _,
      lookup-insert_self chat_id _ w.store.messages,
      lookup-insert_self ai_id _ (get_or (lookup chat_id w.store.messages) []),
      refl,
      refl,
    ),
    lookup-insert_self chat_id _ w.store.active_leaf_message_id,
    lookup-insert_self chat_id _ w.store.active_chat_jobs,
  )

  go_on-Ends :
      (m : Model) (c : Chat) (results : List ToolResult) (first : ChatState) (w : World)
      → Ends (go_on env tools backend chat_id message_id m c results first w)
  unfolding go_on
  go_on-Ends m c results first w = elim (Bool-cases (is_queued message_id w.store)) [
    | inl t ↦ rw (go_on, t) (inr (inl (refl, t)))
    | inr f ↦
        elim (Result-cases
          (continue_request env tools backend chat_id message_id m c results first w.store)) [
            | inr (e, q) ↦ rw (go_on, f, q) (inl (e, refl))
            | inl ((n, ai_id, job_id), q) ↦
                rw (go_on, f, q)
                  (inr (
                    inr (
                      n,
                      ai_id,
                      job_id,
                      _,
                      refl,
                      refl,
                      continued-IsContinued m ai_id job_id (backend.later w),
                    )))
          ]
  ]

  run_tools-Ends : (w : World) → Ends (run_tools env tools backend chat_id message_id w)
  unfolding run_tools
  run_tools-Ends w = elim (Result-cases (tools_target env chat_id message_id w.store)) [
    | inr (e, q) ↦ rw (run_tools, q) (inl (e, refl))
    | inl ((m, c, message, calls), q) ↦
        let ran = run_calls env tools (get_or message.tool_results []) w.store calls in
        elim (Result-cases (store_if_missing env tools backend chat_id message_id message ran.0)) [
          | inr (e, p) ↦ rw (run_tools, q, p) (inl (e, refl))
          | inl (_, p) ↦ rw (run_tools, q, p) (go_on-Ends m c ran.0 w.store _)
        ]
  ]

  fail_if_error-err :
      (r : World × Result (Unit {0})) (e : String)
      → r.1 ≡ err e
      → fail_if_error env tools backend chat_id message_id r
        ≡ set_state (change_message chat_id message_id (with_error e)) r.0
  fail_if_error-err (w, ok _) e h = cc
  fail_if_error-err (w, err x) e h =
      ap (λ y. set_state (change_message chat_id message_id (with_error y)) w)
        (err_injective (err x) refl h)

  fail_if_error-ok :
      (r : World × Result (Unit {0}))
      → r.1 ≡ ok tt
      → fail_if_error env tools backend chat_id message_id r ≡ r.0
  fail_if_error-ok (w, ok _) h = refl
  fail_if_error-ok (w, err x) h = cc

  -- A run of the tools always takes off the mark of its message, and ends in one of three ways: an
  -- error is written into the message, if the store has it; or the message waits in the queue for the
  -- index; or there is an answer to it, whose socket is opened.
  pub run_and_continue-Outcome :
      (w : World)
      → let v = run_and_continue_from_tools env tools backend chat_id message_id w in
        (lookup (processing_key chat_id message_id) v.store.is_processing_tools ≡ some false)
        × (((e : String) × (u : World) × (v
                ≡ finish chat_id message_id
                    (set_state (change_message chat_id message_id (with_error e)) u)))
            ⊎ (is_queued message_id v.store ≡ true)
            ⊎ ((n : NodeChoice) × (ai_id job_id : String) × (opened : World) × (v
                  ≡ finish chat_id message_id (connect env chat_id job_id n opened))
                × IsContinued chat_id message_id ai_id job_id opened.store))
  unfolding run_and_continue_from_tools
  run_and_continue-Outcome w =
      let key = processing_key chat_id message_id in
      let begun = set_state (set_processing key true) w in
      let ran = run_tools env tools backend chat_id message_id begun in
      let end_of = finish chat_id message_id in
      (
        lookup-insert_self key false _,
        elim (run_tools-Ends begun) [
          | inl (e, q) ↦ inl (e, ran.0, ap end_of (fail_if_error-err ran e q))
          | inr (inl (q, waits)) ↦
              inr (inl (ap (λ u. is_queued message_id u.store) (fail_if_error-ok ran q) ∙ waits))
          | inr (inr (n, ai_id, job_id, opened, q, o, good)) ↦
              inr (inr (n, ai_id, job_id, opened, ap end_of (fail_if_error-ok ran q ∙ o), good))
        ],
      )
