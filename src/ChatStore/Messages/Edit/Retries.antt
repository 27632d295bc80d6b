-- ===== src/ChatStore/Messages/Edit/Retries.antt =====
-- A retry makes another answer to the question.
use gpt.Prelude.{
  String, ◌≡◌, refl, ◌⊎◌, inl, inr, true, false, some, [], ◌∷◌, ◌==◌, if◌then◌else◌, Result, ok,
  err, ap, ◌∙◌, Gives, Fails, fails, >>=-ends, lookup, lookup-insert, lookup-insert_self,
  Result-cases,
}
use gpt.Types.{Chat, Message, Model}
use gpt.ChatStore.State.{ChatState, World, set_state}
use gpt.ChatStore.Setters.Chat.{set_active_leaf}
use gpt.ChatStore.Setters.Status.{set_is_generating}
use gpt.ChatStore.Nodes.Pick.{NodeChoice}
use gpt.ChatStore.Messages.{
  Env, Ids, ai_message, change_chat, choose_node, connect, effort, put_messages, settings,
}
use gpt.ChatStore.Messages.Edit.Branches.{asked_last, ok_injective}
use gpt.ChatStore.Messages.Add.Sent.{messages_of}
use gpt.ChatStore.Messages.Edit.{
  RetryParams, add_versions, no_key, no_node, retried, retry_ai_message, retry_request,
  retry_target,
}

-- The new answer hangs under the question and is the active leaf. Every message with another id, an
-- earlier answer among them, is as before.
abbrev pub IsRetried : String → String → Ids → ChatState → ChatState → Type 0
IsRetried chat_id question ids before after =
    ((a : Message) × (a.id ≡ ids.ai_message_id)
      × (a.parent_message_id ≡ some question)
      × (a.job_id ≡ some ids.job_id)
      × (a.is_complete ≡ some false)
      × ((id : String)
          → lookup id (messages_of chat_id after)
            ≡ (if ids.ai_message_id == id then some a else lookup id (messages_of chat_id before))))
    × (lookup chat_id after.active_leaf_message_id ≡ some (some ids.ai_message_id))

retried-IsRetried :
    (env : Env) (chat_id question : String) (m : Model) (ids : Ids) (w : World)
    → IsRetried chat_id question ids w.store (retried env chat_id question m ids w).store
unfolding retried add_versions change_chat set_active_leaf ai_message put_messages
retried-IsRetried env chat_id question m ids w =
    let a = ai_message env.now chat_id ids.ai_message_id ids.job_id question m.model_id in
    let known = messages_of chat_id w.store in
    let found = lookup-insert_self chat_id (put_messages (a ∷ []) known) w.store.messages in
    (
      (a, refl, refl, refl, refl, λ id. rw found (lookup-insert ids.ai_message_id id a known)),
      lookup-insert_self chat_id _ w.store.active_leaf_message_id,
    )

-- What the canister is asked, with the node and the key that were found.
abbrev pub asked_to_retry :
    Env → String → String → Model → ChatState → NodeChoice → String → RetryParams
asked_to_retry env chat_id question m s n key = record {
  chat_id = chat_id;
  user_message_id = question;
  settings = settings env m n s;
  encrypted_chat_key = key;
  reasoning_effort = effort m s;
}

module _ (env : Env) (retry : RetryParams → Result Ids) (chat_id question : String) (c : Chat)
    (m : Model) (s : ChatState) where
  -- A node serves the model, the ciphers succeed, and the canister answers what it is asked with
  -- these ids.
  abbrev pub RetryTaken : NodeChoice → Ids → Type 0
  RetryTaken n ids = Gives (choose_node env m no_node no_key s) (λ nk.
      (nk.0 ≡ n)
      × Gives (env.derive_key c.encryption_salt) (λ _.
        Gives (env.wrap nk.1)
          (λ key. retry (asked_to_retry env chat_id question m s nk.0 key) ≡ ok ids)))

  -- One of these fails.
  abbrev pub RetryRefused : Type 0
  RetryRefused =
      (e : String) × Fails (choose_node env m no_node no_key s) e (λ nk.
        Fails (env.derive_key c.encryption_salt) e (λ _.
          Fails (env.wrap nk.1) e
            (λ key. retry (asked_to_retry env chat_id question m s nk.0 key) ≡ err e)))

  retry_request-taken :
      (n : NodeChoice) (ids : Ids)
      → retry_request env retry chat_id question c m s ≡ ok (n, ids)
      → RetryTaken n ids
  unfolding retry_request
  retry_request-taken n ids e = >>=-ends (choose_node env m no_node no_key s) _ e (λ nk served e1.
      >>=-ends (env.derive_key c.encryption_salt) _ e1 (λ u d e2.
        >>=-ends (env.wrap nk.1) _ e2 (λ key wrapped e3. >>=-ends (retry _) _ e3 (λ sent asked e4.
          let same : (nk.0, sent) ≡ (n, ids) = ok_injective e4 in
          let answered = asked ∙ ap ok (ap (λ x. x.1) same) in
          (nk, served, (ap (λ x. x.0) same, (u, d, (key, wrapped, answered))))))))

  retry_request-refused :
      (e : String) → retry_request env retry chat_id question c m s ≡ err e → RetryRefused
  unfolding retry_request
  retry_request-refused e q = (
    e,
    fails _ (choose_node env m no_node no_key s) q (λ nk q1.
        fails _ (env.derive_key c.encryption_salt) q1
          (λ _ q2. fails _ (env.wrap nk.1) q2 (λ key q3. asked_last (retry _) _ q3))),
  )

-- A retry that goes on. If a node is found, the ciphers succeed and the canister answers with the ids,
-- the socket of the job is opened at that node, in a store that has a new answer under its id beside
-- the earlier ones. Otherwise one of them has failed: the chat no longer generates, and the rest is
-- as it was.
pub retry_ai_message-IsRetried :
    (env : Env) (retry : RetryParams → Result Ids) (chat_id question : String) (w : World)
    (c : Chat) (m : Model)
    → retry_target env chat_id w.store ≡ some (c, m)
    → let v = retry_ai_message env retry chat_id question w in
      let begun = set_state (set_is_generating chat_id true) w in
      let before = env.meanwhile begun in
      ((ids : Ids) × (n : NodeChoice) × (opened : World) × RetryTaken env retry chat_id question c m
          begun.store n ids
        × (v ≡ connect env chat_id ids.job_id n opened)
        × IsRetried chat_id question ids before.store opened.store)
      ⊎ (RetryRefused env retry chat_id question c m begun.store
          × (v ≡ set_state (set_is_generating chat_id false) before))
unfolding retry_ai_message
retry_ai_message-IsRetried env retry chat_id question w c m g =
    let begun = set_state (set_is_generating chat_id true) w in
    let u = env.meanwhile begun in
    elim (Result-cases (retry_request env retry chat_id question c m begun.store)) [
      | inl ((n, ids), q) ↦
          let taken = retry_request-taken env retry chat_id question c m begun.store n ids q in
          rw (retry_ai_message, g, q)
            (inl (
              ids,
              n,
              retried env chat_id question m ids u,
              taken,
              refl,
              retried-IsRetried env chat_id question m ids u,
            ))
      | inr (e, q) ↦
          let refused = retry_request-refused env retry chat_id question c m begun.store e q in
          rw (retry_ai_message, g, q) (inr (refused, refl))
    ]
