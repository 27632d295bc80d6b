-- ===== src/ChatStore/Messages/Send.antt =====
-- message/index.ts: sendMessage, which marks the chat as busy and then adds the message to the chat
-- that is open, or makes a new one.
pub mod Stuck
use gpt.Prelude.{
  ◌>>=◌, String, true, Option, none, some, if◌then◌else◌, get_or, truthy, Result, ok, lookup,
}
use gpt.Types.{Bytes}
use gpt.ChatStore.State.{ChatState, World, set_state}
use gpt.ChatStore.Setters.Status.{set_is_ai_typing, set_is_generating, set_is_waiting}
use gpt.ChatStore.Messages.{Env, Ids}
use gpt.ChatStore.Messages.Add.{AddParams, add_message_to_existing_chat}
use gpt.ChatStore.Messages.Create.{
  CreateParams, NewChat, TitleRequest, create_new_chat_with_first_message,
}

-- `currentChatId ?? "new"`
abbrev pub chat_key : ChatState → String
chat_key s = get_or s.current_chat_id "new"

unfoldable pub mark_busy : String → World → World
mark_busy key w =
    set_state (set_is_ai_typing key true)
      (set_state (set_is_waiting key true) (set_state (set_is_generating key true) w))

-- `return null` is `ok none`.
abbrev pub sent : Result String → Result (Option String)
sent answer = do id ← answer; ok (some id)

-- The salt and the owner of a new chat are only used for one.
module _ (env : Env) (salt : Bytes) (owner : Option String) (add_message : AddParams → Result Ids)
    (create_chat : CreateParams → Result NewChat) where
  -- The two actions, by the chat that is open.
  unfoldable pub dispatch :
      Option String → World → World × Result (Option String) × Option TitleRequest
  dispatch none w =
      let (v, answer, title) = create_new_chat_with_first_message env salt owner create_chat w in
      (v, sent answer, title)
  dispatch (some _) w =
      let (v, answer) = add_message_to_existing_chat env add_message w in (v, sent answer, none)

  unfoldable pub send_message : World → World × Result (Option String) × Option TitleRequest
  unfolding dispatch
  send_message w =
      if truthy (lookup (chat_key w.store) w.store.is_generating)
      then (w, ok none, none)
      else dispatch w.store.current_chat_id (mark_busy (chat_key w.store) w)
