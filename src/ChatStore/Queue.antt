-- ===== src/ChatStore/Queue.antt =====
-- gpt_frontend/src/store/chatStore/actions/queue.ts: the tool calls that wait for the search index.
pub mod Drain
use gpt.Prelude.{
  String, Bool, true, false, not, Option, none, some, List, [], ◌∷◌, get_or, and_then, is_text,
  filter, Dict, lookup, insert, ◌^^◌, given,
}
use gpt.Types.{Message, unknown, IndexingStatus}
use gpt.ChatStore.State.{ChatState, QueuedToolCall}

-- `call.chatId === currentChatId`
unfoldable pub is_current : Option String → QueuedToolCall → Bool
is_current current c = is_text current c.chat_id

-- `${call.chatId}:${call.assistantMessageId}`
abbrev pub composite_key : QueuedToolCall → String
composite_key c = c.chat_id ^^ ":" ^^ c.assistant_message_id

pub failed_call : Option String → Message → Message
failed_call reason m = record m {
  is_complete = some true;
  error_status = some (unknown ("File indexing failed: " ^^ get_or (given reason) "Unknown error"));
}

-- One round of the loop over the calls. `messages` is what the action read before its first `set`: the
-- map that a round writes is a copy of the one that was read then.
reject_call : Dict (Dict Message) → Option String → QueuedToolCall → ChatState → ChatState
reject_call messages reason c s =
    let map_ = lookup c.chat_id messages in
    elim (and_then map_ (lookup c.assistant_message_id)) [
      | none ↦ s
      | some m ↦ record s {
        messages =
            insert c.chat_id (insert c.assistant_message_id (failed_call reason m) (get_or map_ []))
              s.messages;
        is_processing_tools = insert (composite_key c) false s.is_processing_tools;
      }
    ]

reject_calls : Dict (Dict Message) → Option String → List QueuedToolCall → ChatState → ChatState
reject_calls messages reason [] s = s
reject_calls messages reason (c ∷ cs) s =
    reject_calls messages reason cs (reject_call messages reason c s)

take_off : Option String → ChatState → ChatState
take_off current s = record s {
  queued_tool_calls = filter (λ c. not (is_current current c)) s.queued_tool_calls;
}

-- The state after the action and the calls that it starts, in their order: each is run to its end,
-- and its error is logged, before the next begins.
pub process_queued_tool_calls :
    IndexingStatus → Option String → ChatState → ChatState × List QueuedToolCall
process_queued_tool_calls status reason s =
    let valid = filter (is_current s.current_chat_id) s.queued_tool_calls in
    elim valid [
      | [] ↦ (s, [])
      | c ∷ cs ↦ elim status [
        | IndexingStatus.complete ↦ (take_off s.current_chat_id s, c ∷ cs)
        | IndexingStatus.error ↦
            (reject_calls s.messages reason (c ∷ cs) (take_off s.current_chat_id s), [])
        | _ ↦ (s, [])
      ]
    ]
