-- ===== src/ChatStore/Messages/Send/Stuck.antt =====
-- What is left of a message whose guards throw.
use gpt.Prelude.{
  String, ◌≡◌, refl, ap, ◌∙◌, true, false, Option, none, some, truthy, Result, ok, err, lookup,
  lookup-insert_self,
}
use gpt.Types.{Bytes}
use gpt.ChatStore.State.{ChatState, World}
use gpt.ChatStore.Setters.Status.{set_is_ai_typing, set_is_generating, set_is_waiting}
use gpt.ChatStore.Nodes.Pick.{pick_node_for_model}
use gpt.ChatStore.Messages.{Env, Ids, choose_node}
use gpt.ChatStore.Messages.Add.{AddParams, add_target, add_message_to_existing_chat}
use gpt.ChatStore.Messages.Create.{
  CreateParams, NewChat, create_target, create_new_chat_with_first_message,
}
use gpt.ChatStore.Messages.Send.{chat_key, dispatch, mark_busy, send_message}

-- The guards of the action that a message goes to throw this text.
abbrev pub Refuses : Env → Option String → ChatState → String → Type 0
Refuses env none s e = create_target env s ≡ err e
Refuses env (some _) s e = add_target env s ≡ err e

module _ (salt : Bytes) (owner : Option String) (add_message : AddParams → Result Ids)
    (create_chat : CreateParams → Result NewChat) where
  send_message-busy :
      (env : Env) (w : World)
      → truthy (lookup (chat_key w.store) w.store.is_generating) ≡ true
      → send_message env salt owner add_message create_chat w ≡ (w, ok none, none)
  unfolding send_message
  send_message-busy env w busy = rw busy refl

  mark_busy-busy :
      (key : String) (w : World) → lookup key (mark_busy key w).store.is_generating ≡ some true
  unfolding mark_busy set_is_ai_typing set_is_generating set_is_waiting
  mark_busy-busy key w = lookup-insert_self key true w.store.is_generating

  -- The guards do not read the flags.
  mark_busy-targets :
      (env : Env) (key : String) (w : World)
      → (add_target env (mark_busy key w).store ≡ add_target env w.store)
        × (create_target env (mark_busy key w).store ≡ create_target env w.store)
  unfolding mark_busy set_is_ai_typing set_is_generating set_is_waiting add_target create_target
      choose_node pick_node_for_model
  mark_busy-targets env key w = (refl, refl)

  create-throws :
      (env : Env) (w : World) (e : String)
      → create_target env w.store ≡ err e
      → create_new_chat_with_first_message env salt owner create_chat w ≡ (w, err e, none)
  unfolding create_new_chat_with_first_message
  create-throws env w e h = rw (create_new_chat_with_first_message, h) refl

  add-throws :
      (env : Env) (w : World) (e : String)
      → add_target env w.store ≡ err e
      → add_message_to_existing_chat env add_message w ≡ (w, err e)
  unfolding add_message_to_existing_chat
  add-throws env w e h = rw (add_message_to_existing_chat, h) refl

  dispatch-throws :
      (env : Env) (key : String) (w : World) (chat : Option String) (e : String)
      → Refuses env chat w.store e
      → dispatch env salt owner add_message create_chat chat (mark_busy key w)
        ≡ (mark_busy key w, err e, none)
  unfolding dispatch
  dispatch-throws env key w none e h =
      rw (create-throws env (mark_busy key w) e ((mark_busy-targets env key w).1 ∙ h)) refl
  dispatch-throws env key w (some id) e h =
      rw (add-throws env (mark_busy key w) e ((mark_busy-targets env key w).0 ∙ h)) refl

  send_message-throws :
      (env : Env) (w : World) (chat : Option String) (e : String)
      → w.store.current_chat_id ≡ chat
      → truthy (lookup (chat_key w.store) w.store.is_generating) ≡ false
      → Refuses env chat w.store e
      → send_message env salt owner add_message create_chat w
        ≡ (mark_busy (chat_key w.store) w, err e, none)
  unfolding send_message
  send_message-throws env w chat e c idle h = rw idle (
      ap (λ o. dispatch env salt owner add_message create_chat o (mark_busy (chat_key w.store) w)) c
      ∙ dispatch-throws env (chat_key w.store) w chat e h)

  mark_busy-key : (key : String) (w : World) → chat_key (mark_busy key w).store ≡ chat_key w.store
  unfolding mark_busy set_is_ai_typing set_is_generating set_is_waiting
  mark_busy-key key w = refl

  -- A message that its guards refuse, in a chat that was not busy, leaves the chat marked as busy:
  -- the error is thrown, and after it no message can be sent from there, whatever the session, the
  -- model and the nodes have become, as long as the same chat is open and its flag is not changed.
  -- Every such call does nothing and returns no id.
  pub send_message-stuck :
      (env : Env) (w : World) (chat : Option String) (e : String) (later : Env) (u : World)
      → w.store.current_chat_id ≡ chat
      → truthy (lookup (chat_key w.store) w.store.is_generating) ≡ false
      → Refuses env chat w.store e
      → let (v, _, _) = send_message env salt owner add_message create_chat w in
        chat_key u.store ≡ chat_key v.store
        → lookup (chat_key v.store) u.store.is_generating
          ≡ lookup (chat_key v.store) v.store.is_generating
        → ((send_message env salt owner add_message create_chat w).1 ≡ err e)
          × (send_message later salt owner add_message create_chat u ≡ (u, ok none, none))
  send_message-stuck env w chat e later u c idle h key same =
      let thrown = send_message-throws env w chat e c idle h in
      let flag : lookup (chat_key u.store) u.store.is_generating ≡ some true =
        rw (key, same, thrown, mark_busy-key (chat_key w.store) w)
          (mark_busy-busy (chat_key w.store) w) in
      (ap (λ r. r.1) thrown, send_message-busy later u (rw flag refl))
