-- ===== src/ChatStore/Setters/Chat.antt =====
-- setters/chat.ts, setters/message.ts, setters/ocr.ts and setters/getters.ts.
pub mod Reset
use gpt.Prelude.{
  ℕ, ◌+◌, String, Bool, true, false, Option, none, some, List, [], ◌∷◌, ◌==◌, ltb, if◌then◌else◌,
  get_or, and_then, length, find?, Dict, lookup, insert, remove, has, values, is_empty,
}
use gpt.Types.{Chat, Message}
use gpt.ChatStore.State.{
  ChatState, World, initial_state, open_, ReadyState, set_state, close_socket,
}
use gpt.ChatStore.Setters.Attachments.{
  clear_timer, schedule_attachment_cleanup, cancel_attachment_cleanup, clear_attachments_now,
}

pub set_chat_title : String → ChatState → ChatState
set_chat_title title s = record s { chat_title = title }

title_of : Option String → List Chat → String
title_of none chats = ""
title_of (some chat_id) chats =
    if is_empty chat_id
    then ""
    else get_or (and_then (find? (λ c. c.chat_id == chat_id) chats) (λ c. some c.title)) ""

-- The title and the version come from the state that was read first.
pub set_current_chat_id : Option String → World → World
unfolding title_of
set_current_chat_id chat_id w =
    let cleared = clear_timer w.store.attachment_cleanup_timer w in
    let scheduled =
      if ltb 0 (length w.store.attachments)
      then schedule_attachment_cleanup 250 cleared
      else cleared in
    set_state
      (λ s. record s {
        current_chat_id = chat_id;
        chat_title = title_of chat_id w.store.chats;
        chat_version = w.store.chat_version + 1;
      })
      scheduled

abbrev pub is_open : ReadyState → Bool
is_open open_ = true
is_open _ = false

pub close_open_sockets : List ℕ → World → World
close_open_sockets [] w = w
close_open_sockets (r ∷ rs) w =
    close_open_sockets rs (if is_open (w.sockets r) then close_socket r w else w)

pub reset_chat : World → World
reset_chat w =
    set_state (λ _. initial_state)
      (clear_attachments_now
        (cancel_attachment_cleanup (close_open_sockets (values w.store.web_sockets) w)))

pub set_is_next_chat_temporary : Bool → ChatState → ChatState
set_is_next_chat_temporary flag s = record s { is_next_chat_temporary = flag }

pub set_initial_animation_complete : Bool → ChatState → ChatState
set_initial_animation_complete flag s = record s { is_initial_animation_complete = flag }

pub set_input : String → ChatState → ChatState
set_input text s = record s { input = text }

pub set_messages : String → Dict Message → ChatState → ChatState
set_messages chat_id m s = record s { messages = insert chat_id m s.messages }

unfoldable pub set_active_leaf : String → String → ChatState → ChatState
set_active_leaf chat_id leaf s = record s {
  active_leaf_message_id = insert chat_id (some leaf) s.active_leaf_message_id;
}

pub add_ocr_promise : String → ℕ → ChatState → ChatState
add_ocr_promise job_id promise s = record s { ocr_promises = insert job_id promise s.ocr_promises }

pub remove_ocr_promise : String → ChatState → ChatState
remove_ocr_promise job_id s =
    if has job_id s.ocr_promises
    then record s { ocr_promises = remove job_id s.ocr_promises }
    else s

pub has_messages_loaded : String → ChatState → Bool
has_messages_loaded chat_id s = elim (lookup chat_id s.messages) [
  | none ↦ false
  | some m ↦ ltb 0 (length m)
]
