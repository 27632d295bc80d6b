-- ===== src/ChatStore/Messages.antt =====
-- What the actions of gpt_frontend/src/store/chatStore/actions/message share: what they are told by
-- the session, the ciphers and the canister, the attachments of helpers.ts, and the two messages that
-- each of them adds. An image whose file is read is a pair of its type and its bytes.
mod Puts
pub mod Add
pub mod Create
pub mod Edit
pub mod Send
pub mod WebSearch
pub mod Tools
pub mod Continue
use gpt.Prelude.{
  ℕ, String, Bool, false, ◌&&◌, Option, none, some, List, [], ◌∷◌, map, ◌==◌, if◌then◌else◌, get_or,
  Result, ok, find?, Dict, lookup, insert, given, ◌>>=◌, ◌>>◌, need,
}
use gpt.Types.{Attachment, Bytes, Chat, ImageAttachment, Message, Model, Tool, assistant, user}
use gpt.ChatStore.State.{Access, ChatState, World, set_state}
use gpt.ChatStore.Nodes.Pick.{NodeChoice, pick_node_for_model}
use gpt.ChatStore.Setters.Attachments.{is_image}
use gpt.ChatStore.WebSocket.Connection.{connect_to_chain_web_socket}

-- `picked_at` is the time of the choice of the node, `now` the time when the canister has answered.
-- `meanwhile` is what other actions do while the action waits. `compile` is the system prompt, which
-- holds the date in the words of the browser; `wrap` gives the chat's key to a node.
pub record Env : Type 0 where
  pub access : Access
  pub has_root_key : Bool
  pub picked_at : ℕ
  pub now : ℕ
  pub draw : ℕ → ℕ
  pub read : Attachment → Result ImageAttachment
  pub derive_key : Bytes → Result (Unit {0})
  pub encrypt : String → Result Bytes
  pub wrap : String → Result String
  pub compile : Model → String
  pub construct : String → Result (Unit {0})
  pub meanwhile : World → World

-- The ids that the canister gave to the messages and to the job.
pub record Ids : Type 0 where
  pub user_message_id : String
  pub ai_message_id : String
  pub job_id : String

-- The settings that go with every message.
pub record Settings : Type 0 where
  pub model_id : String
  pub node_id : String
  pub temperature : ℕ
  pub max_completion_tokens : ℕ
  pub max_context : ℕ
  pub tools : List Tool
  pub custom_prompt : String

unfoldable pub settings : Env → Model → NodeChoice → ChatState → Settings
settings env m n s = record {
  model_id = m.model_id;
  node_id = n.node_id;
  temperature = s.temperature;
  max_completion_tokens = s.max_output;
  max_context = s.max_context;
  tools = s.selected_tools;
  custom_prompt = env.compile m;
}

-- `selectedModel.isEmbedding ? undefined : reasoningEffort`
abbrev pub effort : Model → ChatState → Option String
effort m s = if m.is_embedding then none else some s.reasoning_effort

abbrev pub vault_is_open : Env → Bool
vault_is_open env = env.access.has_client && env.access.has_canister && env.has_root_key

-- The images of the list, read one by one; the other attachments are left out.
unfoldable pub transform_attachments_for_backend :
    (Attachment → Result ImageAttachment) → List Attachment → Result (List ImageAttachment)
transform_attachments_for_backend read [] = ok []
transform_attachments_for_backend read (a ∷ as_) =
    let rest = transform_attachments_for_backend read as_ in
    if is_image a.type then (do i ← read a; is ← rest; ok (i ∷ is)) else rest

-- The node for the model, with its key; the last two texts are what is thrown without them.
unfoldable pub choose_node :
    Env → Model → String → String → ChatState → Result (NodeChoice × String)
choose_node env m no_node no_key s = do
  n ← need (pick_node_for_model env.picked_at env.draw m.model_id s) no_node
  key ← need (given n.public_key) no_key
  ok (n, key)

abbrev pub chat_of : String → ChatState → Option Chat
chat_of chat_id s = find? (λ c. c.chat_id == chat_id) s.chats

-- The message of the user, which has no job.
unfoldable pub user_message :
    ℕ
    → String
    → String
    → String
    → Option String
    → Option String
    → Option (List ImageAttachment)
    → Message
user_message now chat_id id content parent model_id attachments = record {
  id = id;
  backend_id = some id;
  chat_id = chat_id;
  role = user;
  content = content;
  parent_message_id = parent;
  created_at = now;
  updated_at = now;
  error_status = none;
  is_complete = none;
  job_id = none;
  model_id = model_id;
  attachments = attachments;
  tool_calls = none;
  tool_results = none;
  tool_call_id = none;
  requires_client_action = none;
  usage = none;
}

-- The empty answer that the job will write.
unfoldable pub ai_message : ℕ → String → String → String → String → String → Message
ai_message now chat_id id job_id parent model_id = record {
  id = id;
  backend_id = some id;
  chat_id = chat_id;
  role = assistant;
  content = "";
  parent_message_id = some parent;
  created_at = now;
  updated_at = now;
  error_status = none;
  is_complete = some false;
  job_id = some job_id;
  model_id = some model_id;
  attachments = none;
  tool_calls = none;
  tool_results = none;
  tool_call_id = none;
  requires_client_action = none;
  usage = none;
}

-- The messages are put into the chat's map in their order.
unfoldable pub put_messages : List Message → Dict Message → Dict Message
put_messages [] m = m
put_messages (x ∷ xs) m = put_messages xs (insert x.id x m)

abbrev pub add_messages : String → List Message → ChatState → ChatState
add_messages chat_id xs s = record s {
  messages = insert chat_id (put_messages xs (get_or (lookup chat_id s.messages) [])) s.messages;
}

-- `chats.map(chat => chat.chatId === chatId ? change(chat) : chat)`
unfoldable pub change_chat : String → (Chat → Chat) → ChatState → ChatState
change_chat chat_id change s = record s {
  chats = map (λ c. if c.chat_id == chat_id then change c else c) s.chats;
}

-- `connectToChainWebSocket` of a job that was just made, with no context of its own.
abbrev pub connect : Env → String → String → NodeChoice → World → World
connect env chat_id job_id n w =
    (connect_to_chain_web_socket env.now env.access env.has_root_key env.derive_key env.construct
      chat_id job_id (some n.address) (some n.node_id) n.public_key none w).0
