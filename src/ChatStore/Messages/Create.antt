-- ===== src/ChatStore/Messages/Create.antt =====
-- message/createAndSend.ts: the first message of a new chat. The guards throw before the `try`. The
-- title that `generateTitleForChat` is to find is asked for in the last component of the result.
pub mod Created
use gpt.Prelude.{
  ◌^◌, String, Bool, true, false, not, ◌&&◌, Option, none, some, List, [], ◌∷◌, ltb, if◌then◌else◌,
  get_or, Result, ok, err, Dict, insert, ◌^^◌, is_empty, trim, units, substring, ◌>>=◌, ◌>>◌,
  ensure, need,
}
use gpt.Types.{Bytes, Chat, ImageAttachment, Model}
use gpt.ChatStore.State.{ChatState, World, set_state}
use gpt.ChatStore.Nodes.Pick.{NodeChoice}
use gpt.ChatStore.Setters.Attachments.{schedule_attachment_cleanup}
use gpt.ChatStore.Setters.Chat.{set_active_leaf}
use gpt.ChatStore.Setters.Status.{
  set_active_chat_job, set_is_ai_typing, set_is_generating, set_is_waiting,
}
use gpt.ChatStore.Messages.{
  Env, Ids, Settings, ai_message, choose_node, connect, put_messages, settings,
  transform_attachments_for_backend, user_message, vault_is_open,
}
use gpt.ChatStore.Messages.Add.{add_failed}

-- What `UserApi.createChat` is given.
pub record CreateParams : Type 0 where
  pub title : String
  pub initial_message : Bytes
  pub settings : Settings
  pub encrypted_chat_key : String
  pub encryption_salt : Bytes
  pub attachments : List ImageAttachment
  pub temporary : Bool

-- The arguments of `generateTitleForChat`: the chat, its first message, and its title until then.
pub record TitleRequest : Type 0 where
  pub chat_id : String
  pub first_message : String
  pub placeholder : String

pub record NewChat : Type 0 where
  pub chat_id : String
  pub ids : Ids

-- The beginning of the message, which is 50 units at most.
unfoldable pub title_from : String → String
title_from text =
    if is_empty text
    then "New Chat"
    else (if ltb 50 (units text) then substring text 0 50 ^^ "..." else text)

unfoldable pub create_target : Env → ChatState → Result (Model × NodeChoice × String)
create_target env s = do
  ensure (vault_is_open env) "User is not authenticated or Vault is locked."
  m ← need s.selected_model "No model selected."
  nk ←
      choose_node env m
        ("No active nodes available for model: " ^^ m.name
          ^^ ". Please try again later or select a different model.")
        "Selected node does not have a public key for encryption. Cannot proceed safely." s
  ok (m, nk.0, nk.1)

module _ (env : Env) (salt : Bytes) (owner : Option String) where
  unfoldable pub create_request :
      (CreateParams → Result NewChat)
      → Model
      → NodeChoice
      → String
      → List ImageAttachment
      → ChatState
      → Result NewChat
  create_request create_chat m n public_key images s = do
    env.derive_key salt
    content ← env.encrypt (trim s.input)
    key ← env.wrap (trim public_key)
    create_chat (record {
      title = title_from (trim s.input);
      initial_message = content;
      settings = settings env m n s;
      encrypted_chat_key = key;
      encryption_salt = salt;
      attachments = images;
      temporary = s.is_next_chat_temporary;
    })

  unfoldable pub new_chat : NewChat → ChatState → Chat
  new_chat made s = record {
    chat_id = made.chat_id;
    title = title_from (trim s.input);
    created_at = env.now;
    updated_at = env.now;
    owner = get_or owner "";
    message_ids = made.ids.user_message_id ∷ made.ids.ai_message_id ∷ [];
    job_ids = made.ids.job_id ∷ [];
    active_job_id = some made.ids.job_id;
    archived = false;
    temporary = s.is_next_chat_temporary;
    encryption_salt = salt;
  }

  -- `{ ...flags, new: false, [chatId]: true }`
  abbrev pub handed_over : String → Dict Bool → Dict Bool
  handed_over chat_id flags = insert chat_id true (insert "new" false flags)

  -- The `set` after the answer. The test after it, that the messages are there, always holds.
  unfoldable pub create_in_store :
      Model → List ImageAttachment → NewChat → ChatState → ChatState → ChatState
  create_in_store m images made s current =
      let id = made.chat_id in
      let u =
        user_message env.now id made.ids.user_message_id (trim s.input) none none (some images) in
      let a =
        ai_message env.now id made.ids.ai_message_id made.ids.job_id made.ids.user_message_id
          m.model_id in
      record current {
        messages = insert id (put_messages (u ∷ a ∷ []) []) current.messages;
        current_chat_id = some id;
        chat_title = title_from (trim s.input);
        chats = new_chat made s ∷ current.chats;
        is_generating = handed_over id current.is_generating;
        is_waiting = handed_over id current.is_waiting;
        is_ai_typing = handed_over id current.is_ai_typing;
        input = "";
      }

  -- The world when the socket is opened.
  unfoldable pub created : Model → List ImageAttachment → NewChat → ChatState → World → World
  unfolding create_in_store
  created m images made s w = set_state (set_active_leaf made.chat_id made.ids.ai_message_id) (
      set_state (set_active_chat_job made.chat_id made.ids.job_id false)
        (set_state (create_in_store m images made s) (schedule_attachment_cleanup 250 w)))

  abbrev pub title_request : NewChat → ChatState → Option TitleRequest
  title_request made s =
      if not (is_empty (trim s.input)) && not s.is_next_chat_temporary
      then some (record {
        chat_id = made.chat_id;
        first_message = trim s.input;
        placeholder = title_from (trim s.input);
      })
      else none

  unfoldable pub create_new_chat_with_first_message :
      (CreateParams → Result NewChat) → World → World × Result String × Option TitleRequest
  create_new_chat_with_first_message create_chat w = elim (create_target env w.store) [
    | err e ↦ (w, err e, none)
    | ok (m, n, public_key) ↦
        elim (transform_attachments_for_backend env.read w.store.attachments) [
          | err e ↦ (env.meanwhile w, err e, none)
          | ok images ↦ elim (create_request create_chat m n public_key images w.store) [
            | err e ↦ (add_failed "new" (env.meanwhile w), err e, none)
            | ok made ↦ (
              connect env made.chat_id made.ids.job_id n
                  (created m images made w.store (env.meanwhile w)),
              ok made.chat_id,
              title_request made w.store,
            )
          ]
        ]
  ]
