-- ===== src/ChatStore/Messages/Add.antt =====
-- message/addAndSend.ts: a message in a chat that is there. The guards throw before the `try`, so
-- nothing is undone for them.
pub mod Sent
use gpt.Prelude.{
  ◌^◌, String, false, not, Option, none, some, List, [], ◌∷◌, and_then, Result, ok, err, lookup,
  ◌^^◌, trim, given, ◌>>=◌, ◌>>◌, ensure, need,
}
use gpt.Types.{Bytes, Chat, ImageAttachment, Message, Model}
use gpt.ChatStore.State.{Access, ChatState, World, set_state}
use gpt.ChatStore.Nodes.Pick.{NodeChoice}
use gpt.ChatStore.Setters.Attachments.{schedule_attachment_cleanup}
use gpt.ChatStore.Setters.Chat.{set_active_leaf}
use gpt.ChatStore.Setters.Status.{
  set_active_chat_job, set_is_ai_typing, set_is_generating, set_is_waiting,
}
use gpt.ChatStore.Messages.{
  Env, Ids, Settings, ai_message, add_messages, change_chat, chat_of, choose_node, connect, effort,
  settings, transform_attachments_for_backend, user_message, vault_is_open,
}

-- What `UserApi.addMessage` is given: the content is encrypted, and so is the key of the chat.
pub record AddParams : Type 0 where
  pub chat_id : String
  pub content : Bytes
  pub settings : Settings
  pub encrypted_chat_key : String
  pub attachments : List ImageAttachment
  pub reasoning_effort : Option String
  pub parent_message_id : Option String

-- What the guards have found.
pub record Target : Type 0 where
  pub chat_id : String
  pub chat : Chat
  pub model : Model
  pub node : NodeChoice
  pub public_key : String

unfoldable pub add_target : Env → ChatState → Result Target
add_target env s = do
  ensure (vault_is_open env) "User is not authenticated or Vault is locked."
  chat_id ← need (given s.current_chat_id) "No active chat ID found."
  c ← need (chat_of chat_id s) "Chat metadata missing or encryption not initialized for this chat."
  m ← need s.selected_model "No model selected."
  nk ←
      choose_node env m ("No active nodes available for model: " ^^ m.name ^^ ".")
        "Selected node does not have a public key for encryption." s
  ok (record { chat_id = chat_id; chat = c; model = m; node = nk.0; public_key = nk.1 })

-- The active leaf of the chat, under which the message goes.
abbrev pub parent_of : String → ChatState → Option String
parent_of chat_id s = and_then (lookup chat_id s.active_leaf_message_id) given

-- The calls inside the `try`, from the key of the chat to the answer of the canister.
unfoldable pub add_request :
    Env → (AddParams → Result Ids) → Target → List ImageAttachment → ChatState → Result Ids
add_request env add_message t images s = do
  env.derive_key t.chat.encryption_salt
  content ← env.encrypt (trim s.input)
  key ← env.wrap t.public_key
  add_message (record {
    chat_id = t.chat_id;
    content = content;
    settings = settings env t.model t.node s;
    encrypted_chat_key = key;
    attachments = images;
    reasoning_effort = effort t.model s;
    parent_message_id = parent_of t.chat_id s;
  })

-- The two messages, the chat and the input, in one `set`; `s` is the state that was read first.
unfoldable pub add_to_store :
    Env → Target → List ImageAttachment → Ids → ChatState → ChatState → ChatState
add_to_store env t images ids s current =
    let chat_id = t.chat_id in
    let u =
      user_message env.now chat_id ids.user_message_id (trim s.input) (parent_of chat_id s) none
        (some images) in
    let a =
      ai_message env.now chat_id ids.ai_message_id ids.job_id ids.user_message_id
        t.model.model_id in
    record (change_chat chat_id
      (λ c. record c { updated_at = env.now; active_job_id = some ids.job_id })
      (add_messages chat_id (u ∷ a ∷ []) current)) { input = "" }

-- The world when the socket is opened.
unfoldable pub added : Env → Target → List ImageAttachment → Ids → ChatState → World → World
unfolding add_to_store
added env t images ids s w =
    let chat_id = t.chat_id in
    set_state (set_active_chat_job chat_id ids.job_id false) (
      set_state (set_active_leaf chat_id ids.ai_message_id)
        (set_state (add_to_store env t images ids s) (schedule_attachment_cleanup 250 w)))

-- The `catch`.
unfoldable pub add_failed : String → World → World
add_failed chat_id w = schedule_attachment_cleanup 250 (
    set_state (set_is_ai_typing chat_id false)
      (set_state (set_is_waiting chat_id false) (set_state (set_is_generating chat_id false) w)))

unfoldable pub add_message_to_existing_chat :
    Env → (AddParams → Result Ids) → World → World × Result String
add_message_to_existing_chat env add_message w = elim (add_target env w.store) [
  | err e ↦ (w, err e)
  | ok t ↦ elim (transform_attachments_for_backend env.read w.store.attachments) [
    | err e ↦ (env.meanwhile w, err e)
    | ok images ↦ elim (add_request env add_message t images w.store) [
      | err e ↦ (add_failed t.chat_id (env.meanwhile w), err e)
      | ok ids ↦ (
        connect env t.chat_id ids.job_id t.node (added env t images ids w.store (env.meanwhile w)),
        ok t.chat_id,
      )
    ]
  ]
]
