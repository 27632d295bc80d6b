-- ===== src/ChatStore/Tests.antt =====
-- The theorems of the store at concrete inputs, and the data that they share.
mod Sockets
mod Lists
mod Nodes
pub mod Messages
mod Tools
mod Setters
use gpt.Prelude.{true, false, none, some, [], ◌∷◌, eqb, if◌then◌else◌, Result, Dict}
use gpt.Types.{Message, user, assistant, Chat, Model, active}
use gpt.ChatStore.State.{
  ChatState, World, open_, closed, Access, Call, initial_state, initial_world,
}

abbrev pub question : Message
question = record {
  id = "q";
  backend_id = none;
  chat_id = "c";
  role = user;
  content = "Hello?";
  parent_message_id = none;
  created_at = 10;
  updated_at = 10;
  error_status = none;
  is_complete = some true;
  job_id = none;
  model_id = none;
  attachments = none;
  tool_calls = none;
  tool_results = none;
  tool_call_id = none;
  requires_client_action = none;
  usage = none;
}

-- The answer to it, which the job `j` is still writing.
abbrev pub answer : Message
answer = record question {
  id = "a";
  role = assistant;
  content = "Hel";
  parent_message_id = some "q";
  created_at = 20;
  is_complete = some false;
  job_id = some "j";
}

abbrev pub dialogue : Dict Message
dialogue = ("q", question) ∷ ("a", answer) ∷ []

abbrev pub chat : Chat
chat = record {
  chat_id = "c";
  title = "Greetings";
  created_at = 5;
  updated_at = 5;
  owner = "me";
  message_ids = "q" ∷ "a" ∷ [];
  job_ids = "j" ∷ [];
  active_job_id = some "j";
  archived = false;
  temporary = false;
  encryption_salt = 1 ∷ [];
}

abbrev pub model : Model
model = record {
  model_id = "m";
  name = "M";
  provider = "p";
  maker = "p";
  node_count = 1;
  max_context = 8192;
  max_output = 1024;
  input_token_price = 1;
  output_token_price = 2;
  max_image_attachments = 2;
  max_tools = 1;
  status = active;
  is_reasoning = false;
  is_embedding = false;
  is_featured = false;
}

-- The chat is open and its job streams through the socket 0.
abbrev pub store : ChatState
store = record initial_state {
  chats = chat ∷ [];
  messages = ("c", dialogue) ∷ ("d", []) ∷ [];
  current_chat_id = some "c";
  is_generating = ("c", true) ∷ [];
  web_sockets = ("j", 0) ∷ [];
  ocr_promises = ("j", 4) ∷ [];
  selected_model = some model;
}

abbrev pub world : World
world = record initial_world {
  store = store;
  sockets = λ r. if eqb r 0 then open_ else closed;
  next_socket = 1;
}

abbrev pub ready : Access
ready = record { registered = true; has_client = true; has_canister = true }

abbrev pub answers : {A : Type 0} → Result A → Call A
answers r = record { answer = r; meanwhile = λ s. s }
