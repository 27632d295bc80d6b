-- ===== src/ChatStore/MessageData/Fetch/Loaded.antt =====
-- However a fetch ends, the flags of the chat agree with its job.
use gpt.Prelude.{
  String, ◌≡◌, refl, sym, inl, inr, Bool, true, false, not, ◌&&◌, Option, none, some, List, eq_refl,
  truthy, Dict, lookup, insert, lookup-insert, lookup-remove, Result-cases,
}
use mathlib.Core.Path.{subst}
use gpt.Types.{Message, Job}
use gpt.ChatStore.State.{ChatState, ActiveJobInfo, Access, is_ready}
use gpt.ChatStore.Setters.Status.{
  set_active_chat_job, clear_active_chat_job, set_flags, set_is_loading,
}
use gpt.ChatStore.MessageData.{
  merge_fetched_with_local_map, merge_job_details_into_map, was_locally_complete,
  is_job_actually_running, update_active_job, was_errored,
}
use gpt.ChatStore.MessageData.Leaves.{keep_leaf-only}
use gpt.ChatStore.MessageData.Fetch.{Answers, loaded, load_failed, show_title, fetch_messages}

abbrev pub is_busy : Option ActiveJobInfo → Bool
is_busy none = false
is_busy (some j) = not (truthy j.errored_via_stream)

-- The chat's three flags are the same: they are set if it has an active job that did not fail, and
-- not set if its job failed or there is none.
abbrev pub Agrees : String → ChatState → Type 0
Agrees chat_id s =
    (lookup chat_id s.is_generating ≡ some (is_busy (lookup chat_id s.active_chat_jobs)))
    × (lookup chat_id s.is_ai_typing ≡ some (is_busy (lookup chat_id s.active_chat_jobs)))
    × (lookup chat_id s.is_waiting ≡ some (is_busy (lookup chat_id s.active_chat_jobs)))

clear-Agrees : (chat_id : String) (s : ChatState) → Agrees chat_id (clear_active_chat_job chat_id s)
unfolding clear_active_chat_job
clear-Agrees chat_id s = simp (lookup-insert, lookup-remove, eq_refl) (refl, refl, refl)

set-Agrees :
    (chat_id job_id : String) (errored : Bool) (s : ChatState)
    → Agrees chat_id (set_active_chat_job chat_id job_id errored s)
unfolding set_active_chat_job
set-Agrees chat_id job_id errored s = simp (lookup-insert, eq_refl) (refl, refl, refl)

update-Agrees :
    (chat_id : String) (job : Option String) (running : Bool) (s : ChatState)
    → Agrees chat_id (update_active_job chat_id job running s)
unfolding update_active_job
update-Agrees chat_id (some job_id) true s =
    set-Agrees chat_id job_id (was_errored chat_id job_id s) s
update-Agrees chat_id (some job_id) false s = clear-Agrees chat_id s
update-Agrees chat_id none true s = clear-Agrees chat_id s
update-Agrees chat_id none false s = clear-Agrees chat_id s

update-is_loading :
    (chat_id : String) (job : Option String) (running : Bool) (s : ChatState)
    → (update_active_job chat_id job running s).is_loading ≡ s.is_loading
unfolding update_active_job set_active_chat_job clear_active_chat_job
update-is_loading chat_id (some job_id) true s = refl
update-is_loading chat_id (some job_id) false s = refl
update-is_loading chat_id none true s = refl
update-is_loading chat_id none false s = refl

loaded-Agrees :
    (chat_id : String) (active_job_id : Option String) (fetched : List Message) (jobs : List Job)
    (s : ChatState)
    → let t = loaded chat_id active_job_id fetched jobs s in
      (t.is_loading ≡ false) × Agrees chat_id t
unfolding loaded set_flags
loaded-Agrees chat_id active_job_id fetched jobs s =
    let u = updated in
    let (ls, e) = keep_leaf-only chat_id final_map u in
    subst (λ (t : ChatState). (t.is_loading ≡ false) × Agrees chat_id t) (sym e)
      (
        update-is_loading chat_id active_job_id running _,
        update-Agrees chat_id active_job_id running _,
      )
  where
    final_map : Dict Message
    final_map =
        merge_job_details_into_map
          (merge_fetched_with_local_map fetched (lookup chat_id s.messages)) jobs

    running : Bool
    running =
        is_job_actually_running (was_locally_complete (lookup chat_id s.messages) active_job_id)
          active_job_id jobs final_map

    updated : ChatState
    updated = update_active_job chat_id active_job_id running (
        set_flags chat_id running running (running && not (truthy (lookup chat_id s.is_ai_typing)))
          (record s { messages = insert chat_id final_map s.messages; is_loading = false }))

load_failed-Agrees :
    (chat_id : String) (s : ChatState)
    → let t = load_failed chat_id s in (t.is_loading ≡ false) × Agrees chat_id t
unfolding load_failed set_flags set_is_loading clear_active_chat_job
load_failed-Agrees chat_id s =
    (refl, simp (lookup-insert, lookup-remove, eq_refl) (refl, refl, refl))

-- A fetch of a registered user with an open vault ends with nothing loading and with the flags of the
-- chat in agreement with its job, whatever is answered: all three are set if the chat has an active job
-- that did not fail, and none is if its job failed or there is none.
pub fetch_messages-Agrees :
    (access : Access) (answers : Answers) (chat_id : String) (s : ChatState)
    → is_ready access ≡ true
    → let t = fetch_messages access true answers chat_id s in
      (t.is_loading ≡ false) × Agrees chat_id t
unfolding fetch_messages
fetch_messages-Agrees access answers chat_id s ready = elim (Result-cases answers.chat.answer) [
  | inr (m, e) ↦ rw (ready, e) (load_failed-Agrees chat_id _)
  | inl (chat, e) ↦ elim (Result-cases answers.key) [
    | inr (m, f) ↦ rw (ready, e, f) (load_failed-Agrees chat_id _)
    | inl (decrypt, f) ↦ elim (Result-cases answers.jobs.answer) [
      | inr (m, g) ↦ rw (ready, e, f, g) (load_failed-Agrees chat_id _)
      | inl (jobs, g) ↦
          rw (ready, e, f, g)
            (loaded-Agrees chat_id chat.active_job_id _ jobs (
              answers.jobs.meanwhile
                (show_title chat_id chat.title (answers.chat.meanwhile (set_is_loading true s)))))
    ]
  ]
]
