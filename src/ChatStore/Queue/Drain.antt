-- ===== src/ChatStore/Queue/Drain.antt =====
-- The queue after it is processed.
use gpt.Prelude.{
  List-cases, String, ◌≡◌, refl, sym, ap, ◌∙◌, inl, inr, Bool, not, Option, some, List, [], ◌∷◌,
  ◌++◌, arith, Bool-cases, filter, Dict, lookup, insert, lookup-insert_self, List-cases,
}
use gpt.Types.{Message, IndexingStatus}
use gpt.ChatStore.State.{ChatState, QueuedToolCall}
use gpt.ChatStore.Queue.{
  is_current, failed_call, reject_call, reject_calls, take_off, process_queued_tool_calls,
}

filter-not_nil :
    {A : Type 0} (p : A → Bool) (xs : List A) → filter p xs ≡ [] → filter (λ x. not (p x)) xs ≡ xs
filter-not_nil p [] e = refl
filter-not_nil p (x ∷ xs) e = elim (Bool-cases (p x)) [
  | inl t ↦ cc (let q : x ∷ filter p xs ≡ [] = rw t at e in q)
  | inr f ↦ rw f (ap (◌∷◌ x) (filter-not_nil p xs (let q : filter p xs ≡ [] = rw f at e in q)))
]

-- When the index is complete, the calls of the current chat are started in the order of the queue, and
-- exactly those of the other chats stay queued; a chat's messages are left alone.
pub process-complete :
    (reason : Option String) (s : ChatState)
    → let (t, started) = process_queued_tool_calls IndexingStatus.complete reason s in
      (started ≡ filter (is_current s.current_chat_id) s.queued_tool_calls)
      × (t.queued_tool_calls
          ≡ filter (λ c. not (is_current s.current_chat_id c)) s.queued_tool_calls)
      × (t.messages ≡ s.messages)
unfolding process_queued_tool_calls take_off
process-complete reason s =
    elim (List-cases (filter (is_current s.current_chat_id) s.queued_tool_calls)) [
      | inl e ↦
          rw (e, process_queued_tool_calls)
            (refl, sym (filter-not_nil (is_current s.current_chat_id) s.queued_tool_calls e), refl)
      | inr (c, cs, e) ↦ rw (e, process_queued_tool_calls) (refl, refl, refl)
    ]

reject_calls-append :
    (messages : Dict (Dict Message)) (reason : Option String) (cs : List QueuedToolCall)
    (c : QueuedToolCall) (s : ChatState)
    → reject_calls messages reason (cs ++ c ∷ []) s
      ≡ reject_call messages reason c (reject_calls messages reason cs s)
unfolding reject_calls
reject_calls-append messages reason [] c s = refl
reject_calls-append messages reason (d ∷ cs) c s = reject_calls-append messages reason cs c _

reject_call-queue :
    (messages : Dict (Dict Message)) (reason : Option String) (c : QueuedToolCall) (s : ChatState)
    → (reject_call messages reason c s).queued_tool_calls ≡ s.queued_tool_calls
unfolding reject_call
reject_call-queue messages reason c s = ground arith

reject_calls-queue :
    (messages : Dict (Dict Message)) (reason : Option String) (cs : List QueuedToolCall)
    (s : ChatState)
    → (reject_calls messages reason cs s).queued_tool_calls ≡ s.queued_tool_calls
unfolding reject_calls
reject_calls-queue messages reason [] s = refl
reject_calls-queue messages reason (c ∷ cs) s =
    reject_calls-queue messages reason cs _ ∙ reject_call-queue messages reason c s

reject_call-message :
    (messages : Dict (Dict Message)) (reason : Option String) (c : QueuedToolCall) (s : ChatState)
    (m : Dict Message) (held : Message)
    → lookup c.chat_id messages ≡ some m
    → lookup c.assistant_message_id m ≡ some held
    → lookup c.chat_id (reject_call messages reason c s).messages
      ≡ some (insert c.assistant_message_id (failed_call reason held) m)
unfolding reject_call
reject_call-message messages reason c s m held e f =
    rw (e, f, reject_call) (rw e (lookup-insert_self c.chat_id _ s.messages))

-- If the index failed, the calls of the current chat are taken off the queue, but only the last one
-- of them leaves its error: the messages of the chat are those from before with the message of the
-- last call marked as failed, so the messages of the calls before it are as they were.
pub process-error_last :
    (reason : Option String) (s : ChatState) (cs : List QueuedToolCall) (c : QueuedToolCall)
    (m : Dict Message) (held : Message)
    → filter (is_current s.current_chat_id) s.queued_tool_calls ≡ cs ++ c ∷ []
    → lookup c.chat_id s.messages ≡ some m
    → lookup c.assistant_message_id m ≡ some held
    → let (t, started) = process_queued_tool_calls IndexingStatus.error reason s in
      (started ≡ [])
      × (t.queued_tool_calls
          ≡ filter (λ q. not (is_current s.current_chat_id q)) s.queued_tool_calls)
      × (lookup c.chat_id t.messages
          ≡ some (insert c.assistant_message_id (failed_call reason held) m))
unfolding process_queued_tool_calls take_off
process-error_last reason s [] c m held e f g =
    rw (e, process_queued_tool_calls)
      (
        refl,
        reject_calls-queue s.messages reason (c ∷ []) _,
        rw (reject_calls-append s.messages reason [] c _)
            (reject_call-message s.messages reason c _ m held f g),
      )
process-error_last reason s (d ∷ cs) c m held e f g =
    rw (e, process_queued_tool_calls)
      (
        refl,
        reject_calls-queue s.messages reason (d ∷ cs ++ c ∷ []) _,
        rw (reject_calls-append s.messages reason (d ∷ cs) c _)
            (reject_call-message s.messages reason c _ m held f g),
      )
