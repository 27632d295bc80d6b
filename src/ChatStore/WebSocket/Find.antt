-- ===== src/ChatStore/WebSocket/Find.antt =====
-- webSocket/find.ts: the message that a job writes to.
pub mod Target
use gpt.Prelude.{
  String, Bool, true, false, not, ◌&&◌, Option, none, some, [], ◌∷◌, if◌then◌else◌, is_some, get_or,
  is_text, truthy, Dict, lookup,
}
use gpt.Types.{Message, Role, assistant}
use gpt.ChatStore.State.{ChatState}

abbrev pub is_assistant : Role → Bool
is_assistant assistant = true
is_assistant _ = false

-- `msg.role === "assistant" && msg.jobId === jobId`
abbrev pub is_of_job : String → Message → Bool
is_of_job job_id m = is_assistant m.role && is_text m.job_id job_id

abbrev pub is_unfinished : Message → Bool
is_unfinished m = not (truthy m.is_complete) && not (is_some m.error_status)

-- The first entry of a map that passes a test, under its backend id if it has one.
abbrev pub find_entry : (Message → Bool) → Dict Message → Option (String × Message)
find_entry p [] = none
find_entry p ((id, m) ∷ rest) = if p m then some (get_or m.backend_id id, m) else find_entry p rest

abbrev pub first_of_two :
    Option (String × Message) → Option (String × Message) → Option (String × Message)
first_of_two none b = b
first_of_two (some a) b = some a

unfoldable pub find_in_map : String → Option (Dict Message) → Option (String × Message)
find_in_map job_id none = none
find_in_map job_id (some m) =
    first_of_two (find_entry (λ msg. is_of_job job_id msg && is_unfinished msg) m)
      (find_entry (is_of_job job_id) m)

unfoldable pub find_target_message_details : String → String → ChatState → Option (String × Message)
unfolding find_in_map
find_target_message_details chat_id job_id s = find_in_map job_id (lookup chat_id s.messages)
