-- ===== src/ChatStore/Messages/Continue.antt =====
-- message/tool.ts: the frame of runAndContinueFromTools. The tools are run, their results stored, and
-- the conversation goes on from them, unless a call waits for the index; an error marks the message.
pub mod Outcome
use gpt.Prelude.{
  ℕ, ◌+◌, ◌^◌, String, Bool, true, false, not, ◌&&◌, Option, none, some, List, [], ◌∷◌, ◌++◌, ◌==◌,
  if◌then◌else◌, is_some, get_or, and_then, Result, ok, err, any, lookup, insert, ◌^^◌, is_empty,
  ◌>>=◌, ◌>>◌, ensure, need,
}
use gpt.Types.{Bytes, Chat, Message, MessageErrorStatus, Model, ToolCall, ToolResult}
use gpt.ChatStore.State.{ChatState, QueuedToolCall, World, set_state}
use gpt.ChatStore.Nodes.Pick.{NodeChoice}
use gpt.ChatStore.Setters.Chat.{set_active_leaf}
use gpt.ChatStore.Setters.Status.{set_active_chat_job}
use gpt.ChatStore.Messages.{
  Env, Settings, ai_message, chat_of, choose_node, connect, effort, put_messages, settings,
  vault_is_open,
}
use gpt.ChatStore.Messages.Tools.{ToolEnv, run_calls}

-- What `UserApi.continueFromToolResponse` is given.
pub record ContinueParams : Type 0 where
  pub chat_id : String
  pub assistant_message_id : String
  pub responses : List (String × Bytes)
  pub settings : Settings
  pub encrypted_chat_key : String
  pub reasoning_effort : Option String

-- The two canister calls: the results are stored, and the new answer and its job are made. `later` is
-- what other actions do while the second part of the action waits.
pub record Backend : Type 0 where
  pub store_tool_results : List ToolResult → Result (Unit {0})
  pub continue_from_tool_response : ContinueParams → Result (String × String)
  pub later : World → World

abbrev pub processing_key : String → String → String
processing_key chat_id message_id = chat_id ^^ ":" ^^ message_id

abbrev pub set_processing : String → Bool → ChatState → ChatState
set_processing key flag s = record s { is_processing_tools = insert key flag s.is_processing_tools }

-- The model, the chat and the calls of the message.
unfoldable pub tools_target :
    Env → String → String → ChatState → Result (Model × Chat × Message × List ToolCall)
tools_target env chat_id message_id s = do
  ensure (vault_is_open env && is_some s.selected_model)
      "Cannot run tools: user or model not configured."
  m ← need s.selected_model "Cannot run tools: user or model not configured."
  c ← need (chat_of chat_id s) "Encryption metadata missing."
  message ←
      need (and_then (lookup chat_id s.messages) (lookup message_id))
        "Parent assistant message with tool calls not found."
  calls ← need message.tool_calls "Parent assistant message with tool calls not found."
  ok (m, c, message, calls)

-- `queuedToolCalls`, with the call once.
unfoldable pub queue_call : String → String → ChatState → ChatState
queue_call chat_id message_id s =
    if any (λ q. q.chat_id == chat_id && q.assistant_message_id == message_id) s.queued_tool_calls
    then s
    else record s {
      queued_tool_calls =
          s.queued_tool_calls
          ++ record { chat_id = chat_id; assistant_message_id = message_id } ∷ [];
    }

-- A change of the message, if the store has it.
unfoldable pub change_message : String → String → (Message → Message) → ChatState → ChatState
change_message chat_id message_id change s = elim (lookup chat_id s.messages) [
  | none ↦ s
  | some messages ↦ elim (lookup message_id messages) [
    | none ↦ s
    | some m ↦ record s {
      messages = insert chat_id (insert message_id (change m) messages) s.messages;
    }
  ]
]

abbrev pub with_results : ℕ → List ToolResult → Message → Message
with_results now results m = record m {
  requires_client_action = some false;
  tool_results = some results;
  updated_at = now;
}

abbrev pub with_error : String → Message → Message
with_error message m = record m {
  requires_client_action = some false;
  error_status =
      some (
        MessageErrorStatus.unknown
          (if is_empty message then "Tool execution failed." else message));
}

abbrev pub is_queued : String → ChatState → Bool
is_queued message_id s = any (λ q. q.assistant_message_id == message_id) s.queued_tool_calls

-- The content of each result, encrypted.
unfoldable pub encrypt_all :
    (String → Result Bytes) → List ToolResult → Result (List (String × Bytes))
encrypt_all encrypt [] = ok []
encrypt_all encrypt (r ∷ rs) =
    let rest = encrypt_all encrypt rs in
    do content ← encrypt r.content; others ← rest; ok ((r.tool_call_id, content) ∷ others)

module _ (env : Env) (tools : ToolEnv) (backend : Backend) (chat_id message_id : String) where
  -- `s` is the state when the results are in the store, `first` the one when the action began.
  unfoldable pub continue_request :
      Model → Chat → List ToolResult → ChatState → ChatState → Result (NodeChoice × String × String)
  continue_request m c results first s = do
    nk ←
        choose_node env m "No suitable node found for tool continuation."
          "Node public key required for continuation." s
    env.derive_key c.encryption_salt
    responses ← encrypt_all env.encrypt results
    key ← env.wrap nk.1
    made ← backend.continue_from_tool_response (record {
      chat_id = chat_id;
      assistant_message_id = message_id;
      responses = responses;
      settings = settings env m nk.0 first;
      encrypted_chat_key = key;
      reasoning_effort = effort m first;
    })
    ok (nk.0, made.0, made.1)

  -- The world when the socket is opened: an answer to the message that called the tools.
  unfoldable pub continued : Model → String → String → World → World
  continued m ai_id job_id w =
      let a = ai_message env.now chat_id ai_id job_id message_id m.model_id in
      set_state (set_active_chat_job chat_id job_id false) (
        set_state (set_active_leaf chat_id ai_id) (
          set_state
            (λ s. record s {
              messages =
                  insert chat_id (put_messages (a ∷ []) (get_or (lookup chat_id s.messages) []))
                    s.messages;
            })
            w))

  -- The part after the results.
  unfoldable pub go_on :
      Model → Chat → List ToolResult → ChatState → World → World × Result (Unit {0})
  unfolding continued
  go_on m c results first w =
      if is_queued message_id w.store
      then (w, ok tt)
      else (elim (continue_request m c results first w.store) [
        | err e ↦ (backend.later w, err e)
        | ok (n, ai_id, job_id) ↦
            (connect env chat_id job_id n (continued m ai_id job_id (backend.later w)), ok tt)
      ])

  -- `if (!assistantMessage.tool_results)`: an empty list is there.
  abbrev pub store_if_missing : Message → List ToolResult → Result (Unit {0})
  store_if_missing message results =
      if is_some message.tool_results then ok tt else backend.store_tool_results results

  -- The `try`.
  unfoldable pub run_tools : World → World × Result (Unit {0})
  unfolding go_on
  run_tools w = elim (tools_target env chat_id message_id w.store) [
    | err e ↦ (w, err e)
    | ok (m, c, message, calls) ↦
        let (results, waits) = run_calls env tools (get_or message.tool_results []) w.store calls in
        let ran =
          env.meanwhile (if waits then set_state (queue_call chat_id message_id) w else w) in
        elim (store_if_missing message results) [
          | err e ↦ (ran, err e)
          | ok _ ↦
              go_on m c results w.store
                (set_state (change_message chat_id message_id (with_results env.now results)) ran)
        ]
  ]

  -- The `catch`.
  abbrev pub fail_if_error : World × Result (Unit {0}) → World
  fail_if_error (w, ok _) = w
  fail_if_error (w, err e) = set_state (change_message chat_id message_id (with_error e)) w

  unfoldable pub run_and_continue_from_tools : World → World
  unfolding run_tools
  run_and_continue_from_tools w =
      let key = processing_key chat_id message_id in
      set_state (set_processing key false)
        (fail_if_error (run_tools (set_state (set_processing key true) w)))
