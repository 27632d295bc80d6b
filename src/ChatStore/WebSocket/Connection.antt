-- ===== src/ChatStore/WebSocket/Connection.antt =====
-- webSocket/connection.ts: how the socket of a job is opened, and what its four events do. The
-- derivation of the chat's key, the constructor of a socket and the encryption of the handshake stand
-- outside the source: their outcomes are `derive_key`, `construct` and `encrypt`.
pub mod Lifetime
use gpt.Prelude.{
  ℕ, suc, String, Bool, true, false, not, ◌&&◌, ◌||◌, Option, none, some, ◌==◌, eqb, if◌then◌else◌,
  and_then, truthy, Result, ok, err, find?, lookup, insert, remove, ◌^^◌, given,
}
use gpt.Types.{Bytes, Message}
use gpt.Mappers.ErrorStatus.{BackendErrorStatus}
use gpt.ChatStore.State.{
  ChatState, World, connecting, Access, is_ready, is_live, set_state, close_socket,
}
use gpt.ChatStore.Setters.Status.{set_active_chat_job, clear_active_chat_job, set_flags}
use gpt.ChatStore.WebSocket.Url.{build_web_socket_url}
use gpt.ChatStore.WebSocket.Find.{find_target_message_details, is_unfinished}
use gpt.ChatStore.WebSocket.Failure.{handle_web_socket_error}
use gpt.ChatStore.WebSocket.Handler.{StreamedResponse, Handler, cancel}

-- The address, the id and the public key of a node, none of them missing.
all_given : Option String → Option String → Option String → Option (String × String × String)
all_given address node_id key =
    and_then (given address)
      (λ a. and_then (given node_id) (λ n. and_then (given key) (λ k. some (a, n, k))))

-- The salt of the ephemeral context, or that of the chat. An empty array of bytes is truthy.
unfoldable pub salt_of : Option Bytes → String → ChatState → Result Bytes
salt_of (some salt) chat_id s = ok salt
salt_of none chat_id s = elim (find? (λ c. c.chat_id == chat_id) s.chats) [
  | none ↦ err ("Chat encryption data missing for chat " ^^ chat_id ^^ ".")
  | some c ↦ ok c.encryption_salt
]

-- `new WebSocket(wsUrl)`, stored under the job.
new_socket : String → World → World
new_socket job_id w = record w {
  sockets = λ r. if eqb r w.next_socket then connecting else w.sockets r;
  next_socket = suc w.next_socket;
  store = record (w.store) { web_sockets = insert job_id w.next_socket w.store.web_sockets };
}

-- The socket that the job has, if it is open or opening.
live_socket : String → World → Option ℕ
live_socket job_id w =
    and_then (lookup job_id w.store.web_sockets)
      (λ r. if is_live (w.sockets r) then some r else none)

-- The steps before the socket: each may end the action with a message.
check_connection :
    Bool
    → Option Bytes
    → (Bytes → Result (Unit {0}))
    → String
    → String
    → String
    → ChatState
    → Result String
unfolding salt_of
check_connection ready ephemeral derive_key address chat_id job_id s =
    if ready
    then elim (salt_of ephemeral chat_id s) [
      | err e ↦ err e
      | ok salt ↦ elim (derive_key salt) [
        | err e ↦ err ("Failed to derive chat key: " ^^ e)
        | ok _ ↦ elim (build_web_socket_url address) [
          | err e ↦ err ("Invalid node address format: " ^^ e)
          | ok url ↦ ok (url ^^ "/conversation/ws")
        ]
      ]
    ]
    else err (
        "User not fully registered or vault locked for WebSocket connection for job " ^^ job_id
        ^^ ".")

-- The socket that was used or made, whose events the handlers below answer.
open_connection :
    ℕ → String → String → String → (String → Result (Unit {0})) → String → World → World × Option ℕ
unfolding live_socket new_socket
open_connection now chat_id job_id node_id construct url w = elim (live_socket job_id w) [
  | some r ↦ (set_state (set_active_chat_job chat_id job_id false) w, some r)
  | none ↦ elim (construct url) [
    | err e ↦ (
      handle_web_socket_error now chat_id job_id ("Error during WebSocket setup: " ^^ e) true
          (some node_id) w,
      none,
    )
    | ok _ ↦ (
      set_state (set_active_chat_job chat_id job_id false) (new_socket job_id w),
      some w.next_socket,
    )
  ]
]

pub connect_to_chain_web_socket :
    ℕ
    → Access
    → Bool
    → (Bytes → Result (Unit {0}))
    → (String → Result (Unit {0}))
    → String
    → String
    → Option String
    → Option String
    → Option String
    → Option Bytes
    → World
    → World × Option ℕ
unfolding all_given check_connection open_connection
connect_to_chain_web_socket now access has_root_key derive_key construct chat_id job_id address
      node_id key ephemeral w =
    elim (all_given address node_id key) [
      | none ↦ (
        handle_web_socket_error now chat_id job_id
            ("Node address, ID, or public key missing for job " ^^ job_id ^^ ".") true none w,
        none,
      )
      | some (a, n, k) ↦
          elim (check_connection (is_ready access && has_root_key) ephemeral derive_key a chat_id
            job_id w.store) [
              | err e ↦ (handle_web_socket_error now chat_id job_id e true (some n) w, none)
              | ok url ↦ open_connection now chat_id job_id n construct url w
            ]
    ]

-- `ws.onopen`: `encrypt` gives the handshake. The text that is sent comes with the new state.
pub on_open : ℕ → Result String → String → String → String → ℕ → World → World × Option String
on_open now encrypt chat_id job_id node_id ws w = elim encrypt [
  | err _ ↦ (
    handle_web_socket_error now chat_id job_id "Encryption handshake failed." true (some node_id)
        (close_socket ws w),
    none,
  )
  | ok payload ↦ (
    elim (lookup job_id w.store.web_sockets) [
      | none ↦ w
      | some r ↦ if eqb r ws then set_state (set_flags chat_id true true false) w else w
    ],
    some payload,
  )
]

abbrev pub is_generating_chat : String → ChatState → Bool
is_generating_chat chat_id s =
    truthy (lookup chat_id s.is_generating)
    || truthy (lookup chat_id s.is_ai_typing)
    || truthy (lookup chat_id s.is_waiting)

-- The message of the job is there, and is complete or has an error.
pub is_handled : Option (String × Message) → Bool
is_handled none = false
is_handled (some (id, m)) = not (is_unfinished m)

abbrev pub settle_chat : String → ChatState → ChatState
settle_chat chat_id s = clear_active_chat_job chat_id (set_flags chat_id false false false s)

module _ (decode : String → Result StreamedResponse) (stringify : BackendErrorStatus → String)
    (chat_id job_id node_id : String) (ws : ℕ) where
  -- `ws.onerror`
  pub on_error : ℕ → Handler × World → Handler × World
  on_error now hw =
      let (h, w) = cancel decode stringify chat_id job_id ws now hw in
      (
        h,
        close_socket ws (
            handle_web_socket_error now chat_id job_id "WebSocket connection encountered an error."
              true (some node_id) w),
      )

  -- The microtask that `ws.onclose` puts off. `reason` is what is said of the close event.
  pub after_close : ℕ → String → World → World
  after_close now reason w =
      let handled = is_handled (find_target_message_details chat_id job_id w.store) in
      if is_generating_chat chat_id w.store
      then if handled
        then set_state (settle_chat chat_id) w
        else handle_web_socket_error now chat_id job_id reason true (some node_id) w
      else w

  -- `ws.onclose`; the flag tells whether the microtask follows.
  pub on_close : ℕ → Handler × World → (Handler × World) × Bool
  on_close now hw =
      let (h, w) = cancel decode stringify chat_id job_id ws now hw in
      let shut = set_state (λ s. record s { web_sockets = remove job_id s.web_sockets }) w in
      if h.received_final_message
      then ((h, set_state (settle_chat chat_id) shut), false)
      else ((h, shut), true)

  -- The event with the microtask after it, nothing between them.
  pub closed_socket : ℕ → String → Handler × World → Handler × World
  unfolding on_close after_close
  closed_socket now reason hw =
      let ((h, w), deferred) = on_close now hw in
      (h, if deferred then after_close now reason w else w)
