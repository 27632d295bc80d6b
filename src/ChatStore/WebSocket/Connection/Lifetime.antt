-- ===== src/ChatStore/WebSocket/Connection/Lifetime.antt =====
-- The life of a job's socket: what is stored when it opens, and what is left when it closes.
use gpt.Prelude.{
  Result-cases, ℕ, String, ◌≡◌, refl, ◌∙◌, ◌⊎◌, inl, inr, Bool, true, false, ◌&&◌, Option, none,
  some, eq_refl, Bool-cases, Option-cases, Result, Dict, lookup, remove, lookup-insert,
  lookup-remove, lookup-insert_self, eqb_refl,
}
use gpt.Types.{Bytes}
use gpt.Mappers.ErrorStatus.{BackendErrorStatus}
use gpt.ChatStore.State.{ChatState, World, Access, is_ready, is_live}
use gpt.ChatStore.Setters.Status.{set_active_chat_job, clear_active_chat_job, set_flags}
use gpt.ChatStore.WebSocket.Failure.{handle_web_socket_error}
use gpt.ChatStore.WebSocket.Failure.Effects.{handle_web_socket_error-stops}
use gpt.ChatStore.WebSocket.Handler.{StreamedResponse, Handler, cancel}
use gpt.ChatStore.WebSocket.Find.{find_target_message_details}
use gpt.ChatStore.WebSocket.Connection.{
  live_socket, new_socket, open_connection, connect_to_chain_web_socket, all_given,
  check_connection, is_handled, is_generating_chat, settle_chat, on_close, after_close,
  closed_socket,
}

live_socket-live :
    (job_id : String) (w : World) (r : ℕ)
    → live_socket job_id w ≡ some r
    → (lookup job_id w.store.web_sockets ≡ some r) × (is_live (w.sockets r) ≡ true)
unfolding live_socket
live_socket-live job_id w r e = elim (Option-cases (lookup job_id w.store.web_sockets)) [
  | inl n ↦ cc (let q : none ≡ some r = rw n at e in q)
  | inr (q, n) ↦ elim (Bool-cases (is_live (w.sockets q))) [
    | inl t ↦
        let same : q ≡ r = cc (let p : some q ≡ some r = rw (n, live_socket, t) at e in p) in
        rw⁻¹ same (n, t)
    | inr f ↦ cc (let p : none ≡ some r = rw (n, live_socket, f) at e in p)
  ]
]

settle_chat-idle :
    (chat_id : String) (s : ChatState) → is_generating_chat chat_id (settle_chat chat_id s) ≡ false
unfolding clear_active_chat_job
settle_chat-idle chat_id s = simp (lookup-insert, eq_refl)

handle_web_socket_error-idle :
    (now : ℕ) (chat_id job_id message : String) (is_connection : Bool) (failed_node : Option String)
    (w : World)
    → is_generating_chat chat_id
        (handle_web_socket_error now chat_id job_id message is_connection failed_node w).store
      ≡ false
handle_web_socket_error-idle now chat_id job_id message is_connection failed_node w =
    let (a, b, c, _, _) =
      handle_web_socket_error-stops now chat_id job_id message is_connection failed_node w in
    rw (a, b, c) refl

after_close-idle :
    (decode : String → Result StreamedResponse) (stringify : BackendErrorStatus → String)
    (chat_id job_id node_id : String) (ws now : ℕ) (reason : String) (w : World)
    → is_generating_chat chat_id
        (after_close decode stringify chat_id job_id node_id ws now reason w).store
      ≡ false
unfolding after_close
after_close-idle decode stringify chat_id job_id node_id ws now reason w =
    elim (Bool-cases (is_generating_chat chat_id w.store)) [
      | inl busy ↦
          elim (Bool-cases (is_handled (find_target_message_details chat_id job_id w.store))) [
            | inl t ↦ rw (busy, t) (settle_chat-idle chat_id w.store)
            | inr f ↦
                rw (busy, f)
                  (handle_web_socket_error-idle now chat_id job_id reason true (some node_id) w)
          ]
      | inr idle ↦ rw idle idle
    ]

-- When a socket has closed and the microtask has run after it, the chat is idle, whatever packets came
-- before. The event leaves no socket stored for the job, not even one that was made since and is not
-- the socket that closed.
pub closed_socket-idle :
    (decode : String → Result StreamedResponse) (stringify : BackendErrorStatus → String)
    (chat_id job_id node_id : String) (ws now : ℕ) (reason : String) (hw : Handler × World)
    → let (h, w) = closed_socket decode stringify chat_id job_id node_id ws now reason hw in
      (is_generating_chat chat_id w.store ≡ false)
      × (lookup job_id
            (on_close decode stringify chat_id job_id node_id ws now hw).0.1.store.web_sockets
          ≡ none)
unfolding closed_socket on_close clear_active_chat_job set_flags
closed_socket-idle decode stringify chat_id job_id node_id ws now reason hw =
    let (h, w) = cancel decode stringify chat_id job_id ws now hw in
    let lookup_gone : (m : Dict ℕ) → lookup job_id (remove job_id m) ≡ none =
      λ m. lookup-remove job_id job_id m ∙ rw (eq_refl job_id) refl in
    let shut = record (w.store) { web_sockets = remove job_id w.store.web_sockets } in
    elim (Bool-cases h.received_final_message) [
      | inl t ↦ rw t (settle_chat-idle chat_id shut, lookup_gone w.store.web_sockets)
      | inr f ↦ rw f (
        after_close-idle decode stringify chat_id job_id node_id ws now reason
            (record w { store = shut }),
        lookup_gone w.store.web_sockets,
      )
    ]

-- No socket and an idle chat, or a live socket that is stored under the job, which is the active job of
-- the chat.
abbrev pub Connected : String → String → World × Option ℕ → Type 0
Connected chat_id job_id result =
    ((result.1 ≡ none) × (is_generating_chat chat_id result.0.store ≡ false))
    ⊎ ((r : ℕ) × (result.1 ≡ some r)
        × (lookup job_id result.0.store.web_sockets ≡ some r)
        × (is_live (result.0.sockets r) ≡ true)
        × (lookup chat_id result.0.store.active_chat_jobs
            ≡ some (record { job_id = job_id; errored_via_stream = some false })))

open_connection-Connected :
    (now : ℕ) (chat_id job_id node_id : String) (construct : String → Result (Unit {0}))
    (url : String) (w : World)
    → Connected chat_id job_id (open_connection now chat_id job_id node_id construct url w)
unfolding open_connection set_active_chat_job new_socket
open_connection-Connected now chat_id job_id node_id construct url w =
    elim (Option-cases (live_socket job_id w)) [
      | inl e ↦ elim (Result-cases (construct url)) [
        | inl (u, c) ↦
            rw (e, open_connection)
              (rw c (
                inr (
                  w.next_socket,
                  refl,
                  lookup-insert_self job_id _ _,
                  rw (eqb_refl w.next_socket) refl,
                  lookup-insert_self chat_id _ _,
                )))
        | inr (m, c) ↦
            rw (e, open_connection)
              (rw c (
                inl
                  (refl, handle_web_socket_error-idle now chat_id job_id _ true (some node_id) w)))
      ]
      | inr (r, e) ↦
          let (stored, live) = live_socket-live job_id w r e in
          rw (e, open_connection) (inr (r, refl, stored, live, lookup-insert_self chat_id _ _))
    ]

-- A connection either fails, and leaves the chat idle, or gives a socket that is open or opening, that
-- is stored under the job, and whose job is the active one of the chat.
pub connect-Connected :
    (now : ℕ) (access : Access) (has_root_key : Bool) (derive_key : Bytes → Result (Unit {0}))
    (construct : String → Result (Unit {0})) (chat_id job_id : String)
    (address node_id key : Option String) (ephemeral : Option Bytes) (w : World)
    → Connected chat_id job_id (
        connect_to_chain_web_socket now access has_root_key derive_key construct chat_id job_id
          address node_id key ephemeral w)
unfolding connect_to_chain_web_socket
connect-Connected now access has_root_key derive_key construct chat_id job_id address node_id key
      ephemeral w =
    elim (Option-cases (all_given address node_id key)) [
      | inl e ↦
          rw (e, connect_to_chain_web_socket)
            (inl (refl, handle_web_socket_error-idle now chat_id job_id _ true none w))
      | inr ((a, n, k), e) ↦
          elim (Result-cases (
            check_connection (is_ready access && has_root_key) ephemeral derive_key a chat_id job_id
              w.store)) [
                | inl (url, c) ↦
                    rw (e, connect_to_chain_web_socket)
                      (rw c (open_connection-Connected now chat_id job_id n construct url w))
                | inr (m, c) ↦
                    rw (e, connect_to_chain_web_socket)
                      (rw c (
                        inl (
                          refl,
                          handle_web_socket_error-idle now chat_id job_id m true (some n) w,
                        )))
              ]
    ]
