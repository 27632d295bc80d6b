-- ===== src/ChatStore/State.antt =====
-- gpt_frontend/src/store/chatStore/state.ts, with what the actions change outside the store: the
-- browser's sockets, its pending timers, and the promises that an action settles.
use gpt.Prelude.{
  ℕ, String, Bool, true, false, List, [], ◌∷◌, ◌++◌, Option, none, Dict, Result, eqb, if◌then◌else◌,
  ◌&&◌,
}
use gpt.Types.{
  Chat, Message, Model, Attachment, CompressionLevel, extreme, RenderMode, markdown, Tool,
  PublicNodeInfo,
}

pub record ReconciledNode : Type 0 where
  pub node_id : String
  pub address : String
  pub model_id : String
  pub principal : String
  pub public_key : Option String

pub record ActiveJobInfo : Type 0 where
  pub job_id : String
  pub errored_via_stream : Option Bool

pub record QueuedToolCall : Type 0 where
  pub chat_id : String
  pub assistant_message_id : String

-- A socket and a pair of promise callbacks are references; a timer is the handle of the browser's.
-- `temperature` is in tenths.
pub record ChatState : Type 0 where
  pub chats : List Chat
  pub messages : Dict (Dict Message)
  pub current_chat_id : Option String
  pub input : String
  pub is_waiting : Dict Bool
  pub is_ai_typing : Dict Bool
  pub is_generating : Dict Bool
  pub chat_title : String
  pub chat_version : ℕ
  pub temperature : ℕ
  pub max_output : ℕ
  pub max_context : ℕ
  pub compression_level : CompressionLevel
  pub render_mode : RenderMode
  pub selected_model : Option Model
  pub selected_tools : List Tool
  pub reasoning_effort : String
  pub is_loading : Bool
  pub web_sockets : Dict ℕ
  pub active_chat_jobs : Dict ActiveJobInfo
  pub has_fetched_chats : Bool
  pub has_fetched_my_nodes : Bool
  pub has_fetched_all_nodes : Bool
  pub active_leaf_message_id : Dict (Option String)
  pub reconciled_active_nodes : List ReconciledNode
  pub my_nodes_loading : Bool
  pub all_nodes_loading : Bool
  pub reconciled_nodes_loading : Bool
  pub my_nodes : List PublicNodeInfo
  pub all_nodes : List PublicNodeInfo
  pub is_next_chat_temporary : Bool
  pub attachments : List Attachment
  pub attachment_cleanup_timer : Option ℕ
  pub is_attachments_exiting : Bool
  pub is_processing_tools : Dict Bool
  pub has_user_selected_model : Bool
  pub ocr_promises : Dict ℕ
  pub queued_tool_calls : List QueuedToolCall
  pub is_initial_animation_complete : Bool
  pub temporary_node_blacklist : Dict ℕ

abbrev pub initial_state : ChatState
initial_state = record {
  chats = [];
  messages = [];
  current_chat_id = none;
  input = "";
  is_waiting = [];
  is_ai_typing = [];
  is_generating = [];
  chat_title = "";
  chat_version = 0;
  temperature = 9;
  max_output = 2048;
  max_context = 8192;
  compression_level = extreme;
  render_mode = markdown;
  selected_model = none;
  selected_tools = [];
  reasoning_effort = "medium";
  is_loading = false;
  web_sockets = [];
  active_chat_jobs = [];
  has_fetched_chats = false;
  has_fetched_my_nodes = false;
  has_fetched_all_nodes = false;
  active_leaf_message_id = [];
  reconciled_active_nodes = [];
  my_nodes_loading = false;
  all_nodes_loading = false;
  reconciled_nodes_loading = false;
  my_nodes = [];
  all_nodes = [];
  is_next_chat_temporary = false;
  attachments = [];
  attachment_cleanup_timer = none;
  is_attachments_exiting = false;
  is_processing_tools = [];
  has_user_selected_model = false;
  ocr_promises = [];
  queued_tool_calls = [];
  is_initial_animation_complete = false;
  temporary_node_blacklist = [];
}

pub data ReadyState : Type 0 where
  connecting open_ closing closed : ReadyState

-- What a callback of `setTimeout` will do.
pub data Timer : Type 0 where
  fetch_messages : (chat_id : String) (delay : ℕ) → Timer
  clear_attachments : (handle delay : ℕ) → Timer
  revoke_url : (url : String) (delay : ℕ) → Timer
  revoke_all_urls : (delay : ℕ) → Timer
  ocr_timeout : (promise : ℕ) (job_id : String) (delay : ℕ) → Timer

-- The store with its surroundings: the state of each socket by reference, the next free references,
-- the timers that run, and what the settled promises were given.
pub record World : Type 0 where
  pub store : ChatState
  pub sockets : ℕ → ReadyState
  pub next_socket : ℕ
  pub timers : List Timer
  pub next_handle : ℕ
  pub settled : List (ℕ × Result String)

-- `set(f)`
abbrev pub set_state : (ChatState → ChatState) → World → World
set_state f w = record w { store = f w.store }

-- `setTimeout(…)`
abbrev pub set_timeout : Timer → World → World
set_timeout t w = record w { timers = w.timers ++ t ∷ [] }

-- A socket is open or opening.
abbrev pub is_live : ReadyState → Bool
is_live connecting = true
is_live open_ = true
is_live closing = false
is_live closed = false

-- `ws.close()`: an open or opening socket begins to close, any other is left alone.
abbrev pub close_socket : ℕ → World → World
close_socket s w = record w {
  sockets = λ r.
      if eqb r s then (if is_live (w.sockets r) then closing else w.sockets r) else w.sockets r;
}

abbrev pub initial_world : World
initial_world = record {
  store = initial_state;
  sockets = λ _. closed;
  next_socket = 0;
  timers = [];
  next_handle = 1;
  settled = [];
}

-- What an action learns of the session before it calls a canister: it goes on only for a registered
-- user with a client and a canister.
pub record Access : Type 0 where
  pub registered : Bool
  pub has_client : Bool
  pub has_canister : Bool

abbrev pub is_ready : Access → Bool
is_ready a = a.registered && a.has_client && a.has_canister

-- A call that is awaited: what it answers, and what other actions do to the store meanwhile.
pub record Call (A : Type 0) : Type 0 where
  pub answer : Result A
  pub meanwhile : ChatState → ChatState
