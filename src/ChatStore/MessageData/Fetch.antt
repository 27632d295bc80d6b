-- ===== src/ChatStore/MessageData/Fetch.antt =====
-- messageData/fetch.ts: the action that loads the messages of a chat.
pub mod Loaded
use gpt.Prelude.{
  String, Bool, true, false, not, ◌&&◌, Option, List, if◌then◌else◌, is_text, truthy, Result, ok,
  err, lookup, insert,
}
use gpt.Types.{Message, Job, Bytes, Chat}
use gpt.ChatStore.State.{ChatState, Access, is_ready, Call}
use gpt.ChatStore.Setters.Status.{clear_active_chat_job, set_flags, set_is_loading}
use gpt.ChatStore.MessageData.{
  EncryptedMessage, decrypted_messages, merge_fetched_with_local_map, merge_job_details_into_map,
  was_locally_complete, is_job_actually_running, update_active_job, keep_leaf,
}

-- What the calls of one fetch answer: the chat, the key that is derived from its salt, each message
-- (a failed call is `none`), and the jobs. A chat without a salt is an error of the key. What other actions do meanwhile comes with the first and
-- the last of them.
pub record Answers : Type 0 where
  pub chat : Call Chat
  pub key : Result (Bytes → Result String)
  pub messages : List (Option EncryptedMessage)
  pub jobs : Call (List Job)

pub loaded : String → Option String → List Message → List Job → ChatState → ChatState
unfolding set_flags
loaded chat_id active_job_id fetched jobs s =
    let local_map = lookup chat_id s.messages in
    let final_map =
      merge_job_details_into_map (merge_fetched_with_local_map fetched local_map) jobs in
    let running =
      is_job_actually_running (was_locally_complete local_map active_job_id) active_job_id jobs
        final_map in
    keep_leaf chat_id final_map (
      update_active_job chat_id active_job_id running (
        set_flags chat_id running running (running && not (truthy (lookup chat_id s.is_ai_typing)))
          (record s { messages = insert chat_id final_map s.messages; is_loading = false })))

-- The `catch`.
pub load_failed : String → ChatState → ChatState
load_failed chat_id s =
    clear_active_chat_job chat_id (set_flags chat_id false false false (set_is_loading false s))

pub show_title : String → String → ChatState → ChatState
show_title chat_id title s =
    if is_text s.current_chat_id chat_id then record s { chat_title = title } else s

-- What the action does for a user who is registered and whose vault is open.
load_messages : Answers → String → ChatState → ChatState
unfolding loaded load_failed show_title
load_messages answers chat_id s =
    let called = answers.chat.meanwhile (set_is_loading true s) in
    elim answers.chat.answer [
      | err _ ↦ load_failed chat_id called
      | ok chat ↦
          let titled = show_title chat_id chat.title called in
          elim answers.key [
            | err _ ↦ load_failed chat_id titled
            | ok decrypt ↦
                let resumed = answers.jobs.meanwhile titled in
                elim answers.jobs.answer [
                  | err _ ↦ load_failed chat_id resumed
                  | ok jobs ↦
                      loaded chat_id chat.active_job_id
                        (decrypted_messages decrypt answers.messages) jobs resumed
                ]
          ]
    ]

pub fetch_messages : Access → Bool → Answers → String → ChatState → ChatState
unfolding load_messages
fetch_messages access has_root_key answers chat_id s =
    if is_ready access && has_root_key then load_messages answers chat_id s else s
