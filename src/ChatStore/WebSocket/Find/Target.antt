-- ===== src/ChatStore/WebSocket/Find/Target.antt =====
-- What the search for a job's message finds.
use gpt.Prelude.{
  String, ◌≡◌, ◌∙◌, inl, inr, Bool, true, ◌&&◌, Option, none, some, [], ◌∷◌, Bool-cases,
  Option-cases, and-eq-true, get_or, Dict, lookup,
}
use gpt.Types.{Message}
use gpt.ChatStore.State.{ChatState}
use gpt.ChatStore.WebSocket.Find.{
  is_of_job, is_unfinished, find_entry, find_in_map, find_target_message_details,
}

find_entry-passes :
    (p : Message → Bool) (m : Dict Message) (id : String) (msg : Message)
    → find_entry p m ≡ some (id, msg)
    → p msg ≡ true
find_entry-passes p [] id msg e = cc
find_entry-passes p ((j, n) ∷ m) id msg e = elim (Bool-cases (p n)) [
  | inl t ↦
      let q : some (get_or n.backend_id j, n) ≡ some (id, msg) = rw t at e in
      let r : n ≡ msg = cc q in rw (← r) t
  | inr f ↦ find_entry-passes p m id msg (rw f at e)
]

find_in_map-is_of_job :
    (job_id : String) (o : Option (Dict Message)) (id : String) (msg : Message)
    → find_in_map job_id o ≡ some (id, msg)
    → is_of_job job_id msg ≡ true
unfolding find_in_map
find_in_map-is_of_job job_id none id msg e = cc
find_in_map-is_of_job job_id (some m) id msg e =
    elim (Option-cases (find_entry (λ n. is_of_job job_id n && is_unfinished n) m)) [
      | inl none_left ↦
          find_entry-passes (is_of_job job_id) m id msg (rw (none_left, find_in_map) at e)
      | inr (r, found) ↦
          (and-eq-true _ _ (
            find_entry-passes (λ n. is_of_job job_id n && is_unfinished n) m id msg
              (found ∙ (rw (found, find_in_map) at e)))).0
    ]

-- What is found belongs to an answer of the assistant for that job.
pub find-is_of_job :
    (chat_id job_id : String) (s : ChatState) (id : String) (msg : Message)
    → find_target_message_details chat_id job_id s ≡ some (id, msg)
    → is_of_job job_id msg ≡ true
unfolding find_target_message_details
find-is_of_job chat_id job_id s id msg e =
    find_in_map-is_of_job job_id (lookup chat_id s.messages) id msg e

-- Only the map of the chat is read.
pub find_by_messages :
    (chat_id job_id : String) (s t : ChatState)
    → s.messages ≡ t.messages
    → find_target_message_details chat_id job_id s ≡ find_target_message_details chat_id job_id t
unfolding find_target_message_details
find_by_messages chat_id job_id s t e = rw e

pub find_no_map :
    (chat_id job_id : String) (s : ChatState)
    → lookup chat_id s.messages ≡ none
    → find_target_message_details chat_id job_id s ≡ none
unfolding find_target_message_details
find_no_map chat_id job_id s e = rw e
