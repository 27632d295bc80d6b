-- ===== src/FileStore/Tests/Queue.antt =====
-- Three uploads at work and two that wait.
use gpt.Prelude.{
  String, ◌≡◌, refl, Option, none, some, List, [], ◌∷◌, map, ok, err, lookup, insert, remove,
  values,
}
use gpt.FileStore.State.{
  FileUploadStatus, queued, converting, uploading, chunking, complete, markdown, FileUploadJob,
  initial_state,
}
use gpt.FileStore.Uploads.{World, File, jobs_of, manage, update_job}
use gpt.FileStore.Uploads.Processing.{turn}
use gpt.FileStore.Uploads.Events.{Event, adds, dismisses, updates, ends, timer_fires, to_status}

abbrev job : String → FileUploadStatus → FileUploadJob
job id status = record {
  id = id;
  ui_id = "ui";
  file_name = "a.md";
  file_type = markdown;
  status = status;
  sub_status = "";
  progress = 0;
  error = none;
  model_id = none;
  retries = 0;
  chunks = none;
}

abbrev note : File
note = record { name = "a.md"; size = 3; type = "text/markdown" }

abbrev busy : World
busy = record {
  store = record initial_state {
    current_folder_id = some "home";
    file_processing_jobs =
        ("a", job "a" converting)
        ∷ ("b", job "b" uploading)
        ∷ ("c", job "c" converting)
        ∷ ("d", job "d" queued)
        ∷ ("e", job "e" queued)
        ∷ [];
  };
  file_blob_store = ("a", note) ∷ ("b", note) ∷ ("c", note) ∷ ("d", note) ∷ ("e", note) ∷ [];
  started = [];
  queue_timers = 0;
}

abbrev history : List Event
history =
    adds 17 "k2f9a" note "ui" none none
    ∷ timer_fires
    ∷ updates "a" (to_status complete)
    ∷ ends "a" (ok tt)
    ∷ ends "b" (err "lost")
    ∷ dismisses "a"
    ∷ []

-- With no folder open, the jobs fail one inside another.
abbrev statuses : Option World → Option (List FileUploadStatus)
statuses none = none
statuses (some w) = some (map (λ (j : FileUploadJob). j.status) (values (jobs_of w)))

nowhere_fails :
    statuses (
      manage (
        update_job "a"
          (to_status complete)
          (record busy { store = record (busy.store) { current_folder_id = none } })))
    ≡ some
        (complete ∷ uploading ∷ converting ∷ FileUploadStatus.error ∷ FileUploadStatus.error ∷ [])
unfolding manage update_job lookup insert remove
nowhere_fails = refl

started_one :
    statuses (manage (update_job "a" (to_status chunking) busy))
    ≡ some (chunking ∷ uploading ∷ converting ∷ converting ∷ queued ∷ [])
unfolding manage update_job lookup insert
started_one = refl

-- The text that is started in this round is cut in the same turn, so that it no longer counts.
turn_cuts :
    statuses (turn (update_job "a" (to_status complete) busy))
    ≡ some (complete ∷ uploading ∷ converting ∷ chunking ∷ queued ∷ [])
unfolding turn manage update_job lookup insert
turn_cuts = refl
