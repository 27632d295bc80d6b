-- ===== src/ChatStore/Messages/Edit.antt =====
-- message/edit.ts and message/retry.ts: another version of a question, and another answer to one. The
-- guards return without a word, and an error is only logged.
pub mod Branches
pub mod Retries
use gpt.Prelude.{
  String, true, false, not, ◌&&◌, Option, none, some, List, [], ◌∷◌, map, eqb, if◌then◌else◌,
  and_then, Result, ok, err, length, Dict, lookup, is_empty, trim, ◌>>=◌, ◌>>◌, need,
}
use gpt.Types.{Bytes, Chat, ImageAttachment, Message, Model}
use gpt.ChatStore.State.{ChatState, World, set_state}
use gpt.ChatStore.Nodes.Pick.{NodeChoice}
use gpt.ChatStore.Setters.Attachments.{schedule_attachment_cleanup}
use gpt.ChatStore.Setters.Chat.{set_active_leaf}
use gpt.ChatStore.Setters.Status.{set_is_generating}
use gpt.ChatStore.Messages.{
  Env, Ids, Settings, ai_message, add_messages, change_chat, chat_of, choose_node, connect, effort,
  settings, transform_attachments_for_backend, user_message, vault_is_open,
}

-- What `UserApi.editUserMessage` is given.
pub record EditParams : Type 0 where
  pub chat_id : String
  pub old_user_message_id : String
  pub new_content : Bytes
  pub settings : Settings
  pub encrypted_chat_key : String
  pub attachments : List ImageAttachment
  pub reasoning_effort : Option String

-- What `UserApi.retryAiMessage` is given.
pub record RetryParams : Type 0 where
  pub chat_id : String
  pub user_message_id : String
  pub settings : Settings
  pub encrypted_chat_key : String
  pub reasoning_effort : Option String

-- The chat and the model, if the action goes on.
unfoldable pub edit_target : Env → String → String → ChatState → Option (Chat × Model)
edit_target env chat_id new_content s =
    if vault_is_open env
    then and_then s.selected_model (λ m.
      if is_empty (trim new_content) && eqb (length s.attachments) 0
      then none
      else and_then (chat_of chat_id s) (λ c. some (c, m)))
    else none

unfoldable pub retry_target : Env → String → ChatState → Option (Chat × Model)
retry_target env chat_id s =
    if vault_is_open env
    then and_then s.selected_model (λ m. and_then (chat_of chat_id s) (λ c. some (c, m)))
    else none

abbrev pub no_node : String
no_node = "No suitable node found."

abbrev pub no_key : String
no_key = "Node missing public key for encryption."

-- The new messages with the time of the chat.
unfoldable pub add_versions : Env → String → List Message → ChatState → ChatState
add_versions env chat_id xs current =
    change_chat chat_id (λ c. record c { updated_at = env.now }) (add_messages chat_id xs current)

-- The `try` of an edit before the answer: what was sent, and what was found on the way.
unfoldable pub edit_request :
    Env
    → (EditParams → Result Ids)
    → String
    → String
    → String
    → Chat
    → Model
    → ChatState
    → Result (Dict Message × NodeChoice × List ImageAttachment × Ids)
edit_request env edit_user_message chat_id old_id new_content c m s = do
  local ← need (lookup chat_id s.messages) "Message map not found."
  nk ← choose_node env m no_node no_key s
  images ← transform_attachments_for_backend env.read s.attachments
  env.derive_key c.encryption_salt
  content ← env.encrypt new_content
  key ← env.wrap nk.1
  ids ← edit_user_message (record {
    chat_id = chat_id;
    old_user_message_id = old_id;
    new_content = content;
    settings = settings env m nk.0 s;
    encrypted_chat_key = key;
    attachments = images;
    reasoning_effort = effort m s;
  })
  ok (local, nk.0, images, ids)

-- The world when the socket is opened. The new question has the parent of the old one.
unfoldable pub edited :
    Env
    → String
    → String
    → String
    → Model
    → Dict Message
    → List ImageAttachment
    → Ids
    → World
    → World
unfolding add_versions
edited env chat_id old_id new_content m local images ids w =
    let parent = and_then (lookup old_id local) (λ old. old.parent_message_id) in
    let u =
      user_message env.now chat_id ids.user_message_id new_content parent (some m.model_id)
        (some images) in
    let a =
      ai_message env.now chat_id ids.ai_message_id ids.job_id ids.user_message_id m.model_id in
    set_state (set_active_leaf chat_id ids.ai_message_id)
      (set_state (add_versions env chat_id (u ∷ a ∷ [])) (schedule_attachment_cleanup 250 w))

unfoldable pub edit_user_message :
    Env → (EditParams → Result Ids) → String → String → String → World → World
edit_user_message env edit chat_id old_id new_content w =
    elim (edit_target env chat_id new_content w.store) [
      | none ↦ w
      | some (c, m) ↦
          let begun = set_state (set_is_generating chat_id true) w in
          elim (edit_request env edit chat_id old_id new_content c m begun.store) [
            | err _ ↦
                schedule_attachment_cleanup 250
                  (set_state (set_is_generating chat_id false) (env.meanwhile begun))
            | ok (local, n, images, ids) ↦
                connect env chat_id ids.job_id n
                  (edited env chat_id old_id new_content m local images ids (env.meanwhile begun))
          ]
    ]

unfoldable pub retry_request :
    Env
    → (RetryParams → Result Ids)
    → String
    → String
    → Chat
    → Model
    → ChatState
    → Result (NodeChoice × Ids)
retry_request env retry_ai_message chat_id user_message_id c m s = do
  nk ← choose_node env m no_node no_key s
  env.derive_key c.encryption_salt
  key ← env.wrap nk.1
  ids ← retry_ai_message (record {
    chat_id = chat_id;
    user_message_id = user_message_id;
    settings = settings env m nk.0 s;
    encrypted_chat_key = key;
    reasoning_effort = effort m s;
  })
  ok (nk.0, ids)

-- The world when the socket is opened: one more answer to the question.
unfoldable pub retried : Env → String → String → Model → Ids → World → World
unfolding add_versions
retried env chat_id user_message_id m ids w =
    let a = ai_message env.now chat_id ids.ai_message_id ids.job_id user_message_id m.model_id in
    set_state (set_active_leaf chat_id ids.ai_message_id)
      (set_state (add_versions env chat_id (a ∷ [])) w)

unfoldable pub retry_ai_message : Env → (RetryParams → Result Ids) → String → String → World → World
retry_ai_message env retry chat_id user_message_id w = elim (retry_target env chat_id w.store) [
  | none ↦ w
  | some (c, m) ↦
      let begun = set_state (set_is_generating chat_id true) w in
      elim (retry_request env retry chat_id user_message_id c m begun.store) [
        | err _ ↦ set_state (set_is_generating chat_id false) (env.meanwhile begun)
        | ok (n, ids) ↦
            connect env chat_id ids.job_id n
              (retried env chat_id user_message_id m ids (env.meanwhile begun))
      ]
]
