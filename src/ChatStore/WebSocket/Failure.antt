-- ===== src/ChatStore/WebSocket/Failure.antt =====
-- webSocket/error.ts: what a failure of a job's stream does to the store.
pub mod Effects
use gpt.Prelude.{
  ℕ, ◌+◌, ◌*◌, String, Bool, true, false, Option, none, some, [], ◌∷◌, ◌++◌, if◌then◌else◌, get_or,
  Result, err, Dict, lookup, insert, remove,
}
use gpt.Types.{Message, MessageErrorStatus, node_offline, unknown}
use gpt.ChatStore.State.{ChatState, World, fetch_messages, set_state, set_timeout}
use gpt.ChatStore.Setters.Status.{set_active_chat_job, set_flags}
use gpt.ChatStore.WebSocket.Find.{find_target_message_details}

-- 10 minutes, in milliseconds.
abbrev pub blacklist_duration_ms : ℕ
blacklist_duration_ms = 10 * 60 * 1000

-- `ocrPromise.reject(…)` or `ocrPromise.resolve(…)`, then `removeOcrPromise(jobId)`; nothing if the
-- job has no promise.
unfoldable pub settle_ocr : String → Result String → World → World
settle_ocr job_id outcome w = elim (lookup job_id w.store.ocr_promises) [
  | none ↦ w
  | some promise ↦ record w {
    settled = w.settled ++ (promise, outcome) ∷ [];
    store = record (w.store) { ocr_promises = remove job_id w.store.ocr_promises };
  }
]

unfoldable pub blacklist_node : ℕ → Bool → Option String → Dict ℕ → Dict ℕ
blacklist_node now is_connection none blacklist = blacklist
blacklist_node now is_connection (some node_id) blacklist =
    if is_connection then insert node_id (now + blacklist_duration_ms) blacklist else blacklist

-- `{ type: isConnectionLevelError ? "NodeOffline" : "Unknown", message }`
abbrev pub stream_error : Bool → String → MessageErrorStatus
stream_error true message = node_offline (some message)
stream_error false message = unknown message

unfoldable pub errored_message : ℕ → String → Bool → Message → Message
errored_message now message is_connection m = record m {
  error_status = some (get_or m.error_status (stream_error is_connection message));
  is_complete = some true;
  updated_at = now;
}

unfoldable pub set_errored :
    ℕ
    → String
    → String
    → Bool
    → Option (Dict Message)
    → Option (String × Message)
    → Dict (Dict Message)
    → Dict (Dict Message)
set_errored now chat_id message is_connection (some m) (some (target_id, target)) messages =
    insert chat_id (insert target_id (errored_message now message is_connection target) m) messages
set_errored now chat_id message is_connection _ _ messages = messages

-- The `set` of the handler.
unfoldable pub mark_errored :
    ℕ → String → String → String → Bool → Option String → ChatState → ChatState
mark_errored now chat_id job_id message is_connection failed_node s =
    set_flags chat_id false false false (record s {
      temporary_node_blacklist =
          blacklist_node now is_connection failed_node s.temporary_node_blacklist;
      messages =
          set_errored now chat_id message is_connection (lookup chat_id s.messages)
            (find_target_message_details chat_id job_id s) s.messages;
    })

unfoldable pub handle_web_socket_error :
    ℕ → String → String → String → Bool → Option String → World → World
handle_web_socket_error now chat_id job_id message is_connection failed_node w =
    set_timeout (fetch_messages chat_id 500) (
      set_state (mark_errored now chat_id job_id message is_connection failed_node)
        (set_state (set_active_chat_job chat_id job_id true) (settle_ocr job_id (err message) w)))
