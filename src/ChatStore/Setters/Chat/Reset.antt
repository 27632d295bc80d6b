-- ===== src/ChatStore/Setters/Chat/Reset.antt =====
-- A reset of the store.
use gpt.Prelude.{
  ℕ, String, ◌≡◌, refl, inl, inr, false, Option, List, [], ◌∷◌, arith, ltb, if◌then◌else◌,
  Bool-cases, In, length, In-cons, values, eqb_refl,
}
use gpt.ChatStore.State.{World, initial_state, close_socket}
use gpt.ChatStore.Setters.Attachments.{clear_timer, cancel_attachment_cleanup}
use gpt.ChatStore.Setters.Attachments.Limits.{
  cancel_attachment_cleanup-sockets, clear_attachments_now-sockets,
}
use gpt.ChatStore.Setters.Attachments.Timers.{
  OneCleanup, cleanups, clear_timer-cleanups, schedule-OneCleanup, cancel-cleanups,
}
use gpt.ChatStore.Setters.Chat.{set_current_chat_id, is_open, close_open_sockets, reset_chat}

close_socket-stays :
    (q r : ℕ) (w : World)
    → is_open (w.sockets r) ≡ false
    → is_open ((close_socket q w).sockets r) ≡ false
close_socket-stays q r w h = ground arith

close_socket_self : (r : ℕ) (w : World) → is_open ((close_socket r w).sockets r) ≡ false
close_socket_self r w = ground (arith, eqb_refl r)

close_one-stays :
    (q r : ℕ) (w : World)
    → is_open (w.sockets r) ≡ false
    → is_open ((if is_open (w.sockets q) then close_socket q w else w).sockets r) ≡ false
close_one-stays q r w h = elim (Bool-cases (is_open (w.sockets q))) [
  | inl t ↦ rw t (close_socket-stays q r w h)
  | inr f ↦ rw f h
]

close_open_sockets-stays :
    (rs : List ℕ) (r : ℕ) (w : World)
    → is_open (w.sockets r) ≡ false
    → is_open ((close_open_sockets rs w).sockets r) ≡ false
unfolding close_open_sockets
close_open_sockets-stays [] r w h = h
close_open_sockets-stays (q ∷ rs) r w h = close_open_sockets-stays rs r _ (close_one-stays q r w h)

close_open_sockets-closes :
    (rs : List ℕ) {r : ℕ} (w : World)
    → In r rs
    → is_open ((close_open_sockets rs w).sockets r) ≡ false
unfolding close_open_sockets
close_open_sockets-closes [] w i = elim i [ ]
close_open_sockets-closes (q ∷ rs) {r} w i = elim (In-cons i) [
  | inl e ↦ rw e (
      close_open_sockets-stays rs q _ (elim (Bool-cases (is_open (w.sockets q))) [
        | inl t ↦ rw t (close_socket_self q w)
        | inr f ↦ rw (f, f) refl
      ]))
  | inr j ↦ close_open_sockets-closes rs _ j
]

-- A reset puts the store back to its initial state, and no socket that the store held is open after it.
pub reset_chat-closes :
    (w : World) (r : ℕ)
    → In r (values w.store.web_sockets)
    → ((reset_chat w).store ≡ initial_state) × (is_open ((reset_chat w).sockets r) ≡ false)
unfolding reset_chat
reset_chat-closes w r i = (
  refl,
  rw (clear_attachments_now-sockets _, cancel_attachment_cleanup-sockets _)
      (close_open_sockets-closes (values w.store.web_sockets) w i),
)

-- If at most one timer will clear the attachments, the one whose handle the store keeps, so it is after
-- a change of the chat, and after a cancellation there is none.
pub set_current_chat_id-OneCleanup :
    (chat_id : Option String) (w : World)
    → OneCleanup w
    → OneCleanup (set_current_chat_id chat_id w) × (cleanups (cancel_attachment_cleanup w) ≡ [])
unfolding set_current_chat_id
set_current_chat_id-OneCleanup chat_id w one =
    let gone = clear_timer-cleanups w one in
    let cleared = clear_timer w.store.attachment_cleanup_timer w in
    (
      elim (Bool-cases (ltb 0 (length w.store.attachments))) [
        | inl t ↦ rw t (schedule-OneCleanup 250 cleared (inl gone))
        | inr f ↦ rw f (inl gone)
      ],
      cancel-cleanups w one,
    )
