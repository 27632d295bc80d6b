-- ===== src/ChatStore/Setters/Status.antt =====
-- setters/status.ts: the three flags of a chat and its active job.
use gpt.Prelude.{String, Bool, false, not, some, insert, remove}
use gpt.ChatStore.State.{ChatState}

unfoldable pub set_is_generating : String → Bool → ChatState → ChatState
set_is_generating chat_id flag s = record s { is_generating = insert chat_id flag s.is_generating }

unfoldable pub set_is_waiting : String → Bool → ChatState → ChatState
set_is_waiting chat_id flag s = record s { is_waiting = insert chat_id flag s.is_waiting }

unfoldable pub set_is_ai_typing : String → Bool → ChatState → ChatState
set_is_ai_typing chat_id flag s = record s { is_ai_typing = insert chat_id flag s.is_ai_typing }

unfoldable pub set_is_loading : Bool → ChatState → ChatState
set_is_loading flag s = record s { is_loading = flag }

-- The `set` of the three flags of one chat, which the actions share.
unfoldable pub set_flags : String → Bool → Bool → Bool → ChatState → ChatState
set_flags chat_id generating typing waiting s = record s {
  is_generating = insert chat_id generating s.is_generating;
  is_ai_typing = insert chat_id typing s.is_ai_typing;
  is_waiting = insert chat_id waiting s.is_waiting;
}

unfoldable pub set_active_chat_job : String → String → Bool → ChatState → ChatState
set_active_chat_job chat_id job_id errored s = record s {
  active_chat_jobs =
      insert chat_id (record { job_id = job_id; errored_via_stream = some errored })
        s.active_chat_jobs;
  is_generating = insert chat_id (not errored) s.is_generating;
  is_ai_typing = insert chat_id (not errored) s.is_ai_typing;
  is_waiting = insert chat_id (not errored) s.is_waiting;
}

unfoldable pub clear_active_chat_job : String → ChatState → ChatState
clear_active_chat_job chat_id s = record s {
  active_chat_jobs = remove chat_id s.active_chat_jobs;
  is_generating = insert chat_id false s.is_generating;
  is_ai_typing = insert chat_id false s.is_ai_typing;
  is_waiting = insert chat_id false s.is_waiting;
}
