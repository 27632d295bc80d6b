-- ===== src/ChatStore/WebSocket/Failure/Effects.antt =====
-- The effects of a failure: on the flags, on the message and on the other chats.
use gpt.Prelude.{
  lookup-insert_ne, lookup-insert_self, ℕ, ◌+◌, String, ◌≡◌, refl, ◌∙◌, inl, inr, Bool, true, false,
  Option, none, some, arith, eq_iff, eq_refl, ◌==◌, if◌then◌else◌, Option-cases, Result, err, Dict,
  lookup, insert, remove, lookup-insert, lookup-remove,
}
use gpt.Types.{Message}
use gpt.ChatStore.State.{World}
use gpt.ChatStore.Setters.Status.{set_active_chat_job, set_flags}
use gpt.ChatStore.WebSocket.Find.{find_target_message_details}
use gpt.ChatStore.WebSocket.Find.Target.{find_by_messages}
use gpt.ChatStore.WebSocket.Failure.{
  settle_ocr, blacklist_node, errored_message, set_errored, mark_errored, handle_web_socket_error,
  blacklist_duration_ms,
}

-- Settling a promise touches nothing of the store but the promises.
pub settle_ocr-store :
    (job_id : String) (r : Result String) (w : World)
    → (ps : Dict ℕ) × ((settle_ocr job_id r w).store ≡ record (w.store) { ocr_promises = ps })
unfolding settle_ocr
settle_ocr-store job_id r w = elim (Option-cases (lookup job_id w.store.ocr_promises)) [
  | inl e ↦ (w.store.ocr_promises, rw (e, settle_ocr))
  | inr (p, e) ↦ (remove job_id w.store.ocr_promises, rw (e, settle_ocr))
]

pub settle_ocr-promises :
    (job_id j : String) (r : Result String) (w : World)
    → lookup j (settle_ocr job_id r w).store.ocr_promises
      ≡ (if job_id == j then none else lookup j w.store.ocr_promises)
unfolding settle_ocr
settle_ocr-promises job_id j r w =
    ground (arith, eq_iff job_id j, lookup-remove job_id j w.store.ocr_promises)

pub settle_ocr-sockets :
    (job_id : String) (r : Result String) (w : World) → (settle_ocr job_id r w).sockets ≡ w.sockets
unfolding settle_ocr
settle_ocr-sockets job_id r w = ground arith

lookup-set_errored_ne :
    (now : ℕ) (chat_id message : String) (is_connection : Bool) (o : Option (Dict Message))
    (f : Option (String × Message)) (ms : Dict (Dict Message)) (other : String)
    → (chat_id == other) ≡ false
    → lookup other (set_errored now chat_id message is_connection o f ms) ≡ lookup other ms
unfolding set_errored
lookup-set_errored_ne now chat_id message is_connection (some m) (some (id, t)) ms other h =
    lookup-insert_ne chat_id other _ ms h
lookup-set_errored_ne now chat_id message is_connection (some m) none ms other h = refl
lookup-set_errored_ne now chat_id message is_connection none f ms other h = refl

-- The chat stops waiting and generating, its job is kept as failed, and no promise of the job is left.
pub handle_web_socket_error-stops :
    (now : ℕ) (chat_id job_id message : String) (is_connection : Bool) (failed_node : Option String)
    (w : World)
    → let s =
        (handle_web_socket_error now chat_id job_id message is_connection failed_node w).store in
      (lookup chat_id s.is_generating ≡ some false)
      × (lookup chat_id s.is_ai_typing ≡ some false)
      × (lookup chat_id s.is_waiting ≡ some false)
      × (lookup chat_id s.active_chat_jobs
          ≡ some (record { job_id = job_id; errored_via_stream = some true }))
      × (lookup job_id s.ocr_promises ≡ none)
unfolding handle_web_socket_error mark_errored set_flags set_active_chat_job
handle_web_socket_error-stops now chat_id job_id message is_connection failed_node w = (
  simp (lookup-insert, eq_refl),
  simp (lookup-insert, eq_refl),
  simp (lookup-insert, eq_refl),
  simp (lookup-insert, eq_refl),
  simp (settle_ocr-promises, eq_refl),
)

-- A chat other than the failed one keeps its flags, its job and its messages.
pub handle_web_socket_error-other :
    (now : ℕ) (chat_id job_id message : String) (is_connection : Bool) (failed_node : Option String)
    (w : World) (other : String)
    → (chat_id == other) ≡ false
    → let s =
        (handle_web_socket_error now chat_id job_id message is_connection failed_node w).store in
      (lookup other s.is_generating ≡ lookup other w.store.is_generating)
      × (lookup other s.is_ai_typing ≡ lookup other w.store.is_ai_typing)
      × (lookup other s.is_waiting ≡ lookup other w.store.is_waiting)
      × (lookup other s.active_chat_jobs ≡ lookup other w.store.active_chat_jobs)
      × (lookup other s.messages ≡ lookup other w.store.messages)
unfolding handle_web_socket_error mark_errored set_flags set_active_chat_job
handle_web_socket_error-other now chat_id job_id message is_connection failed_node w other ne =
    let (ps, e) = settle_ocr-store job_id (err message) w in
    rw e (
      flag w.store.is_generating,
      flag w.store.is_ai_typing,
      flag w.store.is_waiting,
      lookup-insert_ne chat_id other _ _ ne,
      lookup-set_errored_ne now chat_id message is_connection _ _ _ other ne,
    )
  where
    flag :
        (m : Dict Bool)
        → lookup other (insert chat_id false (insert chat_id false m)) ≡ lookup other m
    flag m = lookup-insert_ne chat_id other _ _ ne ∙ lookup-insert_ne chat_id other _ _ ne

-- The message of the failed job, if the chat has one, is written back as complete and with an error,
-- and no other message of the chat changes.
pub handle_web_socket_error-message :
    (now : ℕ) (chat_id job_id message : String) (is_connection : Bool) (failed_node : Option String)
    (w : World) (target_id : String) (target : Message) (m : Dict Message)
    → find_target_message_details chat_id job_id w.store ≡ some (target_id, target)
    → lookup chat_id w.store.messages ≡ some m
    → lookup chat_id
        (handle_web_socket_error now chat_id job_id message is_connection failed_node
          w).store.messages
      ≡ some (insert target_id (errored_message now message is_connection target) m)
unfolding handle_web_socket_error mark_errored set_flags set_active_chat_job set_errored
handle_web_socket_error-message now chat_id job_id message is_connection failed_node w target_id
      target m found held =
    let (ps, e) = settle_ocr-store job_id (err message) w in
    let t = set_active_chat_job chat_id job_id true (record (w.store) { ocr_promises = ps }) in
    let same = find_by_messages chat_id job_id t w.store refl in
    rw (e, held, same ∙ found, set_errored) (lookup-insert_self chat_id _ _)

pub handle_web_socket_error-blacklist :
    (now : ℕ) (chat_id job_id message node_id : String) (w : World)
    → lookup node_id
        (handle_web_socket_error now chat_id job_id message true
          (some node_id)
          w).store.temporary_node_blacklist
      ≡ some (now + blacklist_duration_ms)
unfolding handle_web_socket_error mark_errored set_flags set_active_chat_job blacklist_node
handle_web_socket_error-blacklist now chat_id job_id message node_id w =
    simp (lookup-insert, eq_refl)
