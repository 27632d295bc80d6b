-- ===== src/FileStore/Uploads.antt =====
-- store/fileStore/actions/write.ts: the queue of uploads. A job waits until fewer than three are being
-- worked on. What the processing of a file does comes back as events: its updates, and its end.
pub mod Jobs
pub mod Orderly
pub mod Launch
pub mod Starts
pub mod Ends
pub mod Events
pub mod Processing
use gpt.Prelude.{
  ℕ, zero, suc, ◌+◌, ◌-◌, String, Bool, true, false, Option, none, some, List, [], ◌∷◌, ◌++◌, map,
  ◌==◌, if◌then◌else◌, get_or, and_then, Result, ok, err, length, filter, take, or_else, Dict,
  lookup, insert, remove, values, ◌^^◌, starts_with, given, show,
}
use gpt.Types.{TextChunk}
use gpt.FileUtils.{is_text_mime_type}
use gpt.FileStore.State.{
  FileUploadStatus, queued, embedding, converting, extracting, uploading, complete, error, chunking,
  FileType, pdf, markdown, image, other, FileUploadJob, Folder, FileItem, FileSystemState,
}

-- What the queue reads of a browser's `File`.
pub record File : Type 0 where
  pub name : String
  pub size : ℕ
  pub type : String

-- The arguments of a call of `FileProcessingService.processFile`.
pub record Start : Type 0 where
  pub job : FileUploadJob
  pub file : File
  pub parent_id : String
  pub existing_file_names : List String

-- The store with the module's `fileBlobStore`, the files that are being processed, and the number of
-- `_manageJobQueue` timers that run.
pub record World : Type 0 where
  pub store : FileSystemState
  pub file_blob_store : Dict File
  pub started : List Start
  pub queue_timers : ℕ

abbrev pub concurrency_limit : ℕ
concurrency_limit = 3

abbrev pub jobs_of : World → Dict FileUploadJob
jobs_of w = w.store.file_processing_jobs

abbrev pub set_jobs : Dict FileUploadJob → World → World
set_jobs jobs w = record w { store = record (w.store) { file_processing_jobs = jobs } }

-- `set` at one job: nothing if there is none of that id.
unfoldable pub update_at : String → (FileUploadJob → FileUploadJob) → World → World
update_at id f w = elim (lookup id (jobs_of w)) [
  | none ↦ w
  | some j ↦ set_jobs (insert id (f j) (jobs_of w)) w
]

abbrev pub is_active : FileUploadStatus → Bool
is_active embedding = true
is_active converting = true
is_active extracting = true
is_active uploading = true
is_active _ = false

abbrev pub is_queued : FileUploadStatus → Bool
is_queued queued = true
is_queued _ = false

abbrev pub is_settled : FileUploadStatus → Bool
is_settled complete = true
is_settled error = true
is_settled _ = false

file_type_of : File → FileType
file_type_of file =
    if file.type == "application/pdf"
    then pdf
    else if is_text_mime_type file.type file.name
    then markdown
    else if starts_with file.type "image/"
    then image
    else other

-- `now` is `Date.now()`, and `random` the five characters.
pub add_file_job :
    ℕ → String → File → String → Option String → Option (List TextChunk) → World → World
unfolding file_type_of
add_file_job now random file ui_id model_id chunks w =
    let job_id = file.name ^^ "-" ^^ show file.size ^^ "-" ^^ show now ^^ "-" ^^ random in
    let job : FileUploadJob = record {
      id = job_id;
      ui_id = ui_id;
      file_name = file.name;
      file_type = file_type_of file;
      status = queued;
      sub_status = "Waiting in queue...";
      progress = 0;
      error = none;
      model_id = model_id;
      retries = 0;
      chunks = chunks;
    } in
    record (set_jobs (insert job_id job (jobs_of w)) w) {
      file_blob_store = insert job_id file w.file_blob_store;
      queue_timers = suc w.queue_timers;
    }

pub dismiss_job : String → World → World
dismiss_job job_id w = elim (lookup job_id (jobs_of w)) [
  | none ↦ w
  | some job ↦
      if is_settled job.status
      then record (set_jobs (remove job_id (jobs_of w)) w) {
        file_blob_store = remove job_id w.file_blob_store;
      }
      else w
]

-- `ids.map((id) => items.get(id)?.name)`, less what is missing or empty.
names_of : {A : Type 0} → (A → String) → Dict A → List String → List String
names_of name items [] = []
names_of name items (id ∷ ids) =
    let rest = names_of name items ids in
    elim (and_then (lookup id items) (λ a. given (some (name a)))) [
      | none ↦ rest
      | some n ↦ n ∷ rest
    ]

pub existing_names : String → FileSystemState → List String
unfolding names_of
existing_names folder s = elim (lookup folder s.folder_contents) [
  | none ↦ []
  | some c ↦
      names_of (λ (f : FileItem). f.name) s.files c.files
      ++ names_of (λ (f : Folder). f.name) s.folders c.folders
]

-- What the body of `_executeJob` reaches before its first await: the call of the service, or a throw.
pub launch : String → World → Result Start
unfolding existing_names
launch job_id w = elim (lookup job_id (jobs_of w)) [
  | none ↦ err ("Job " ^^ job_id ^^ " not found in state.")
  | some job ↦ elim (lookup job_id w.file_blob_store) [
    | none ↦ err ("File blob for job " ^^ job_id ^^ " not found.")
    | some file ↦ elim w.store.current_folder_id [
      | none ↦ err "No active folder to upload to."
      | some folder ↦ ok (record {
        job = job;
        file = file;
        parent_id = folder;
        existing_file_names = existing_names folder w.store;
      })
    ]
  ]
]

abbrev converted : FileUploadJob → FileUploadJob
converted job = record job { status = converting; sub_status = "Starting..." }

abbrev failed : String → FileUploadJob → FileUploadJob
failed message job = record job { status = error; error = some message }

-- The first half of `finally`: the file of a job that is done is let go.
pub settle : String → World → World
settle job_id w = elim (lookup job_id (jobs_of w)) [
  | none ↦ w
  | some job ↦
      if is_settled job.status
      then record w { file_blob_store = remove job_id w.file_blob_store }
      else w
]

module _ (manage : World → Option World) where
  -- `_executeJob` up to its first await. A throw before it runs `catch` and `finally` at once, and
  -- with them `_manageJobQueue`, inside the loop that made this call. What the
  -- service tells of the job in the same turn is in `Processing.turn`.
  pub execute_job : String → World → Option World
  unfolding launch settle update_at
  execute_job job_id w =
      let begun = update_at job_id converted w in
      elim (launch job_id begun) [
        | ok start ↦ some (record begun { started = begun.started ++ start ∷ [] })
        | err message ↦ manage (settle job_id (update_at job_id (failed message) begun))
      ]

  pub execute_all : List FileUploadJob → World → Option World
  execute_all [] w = some w
  execute_all (job ∷ jobs) w = and_then (execute_job job.id w) (execute_all jobs)

abbrev pub active_count : World → ℕ
active_count w = length (filter (λ j. is_active j.status) (values (jobs_of w)))

abbrev pub queued_jobs : World → List FileUploadJob
queued_jobs w = filter (λ j. is_queued j.status) (values (jobs_of w))

-- On fuel, which bounds how deep the calls nest.
unfoldable pub manage_job_queue : ℕ → World → Option World
unfolding execute_all execute_job
manage_job_queue zero w = none
manage_job_queue (suc depth) w =
    execute_all (manage_job_queue depth) (take (concurrency_limit - active_count w) (queued_jobs w))
      w

-- A nested call has one queued job less.
unfoldable pub manage : World → Option World
unfolding manage_job_queue
manage w = manage_job_queue (suc (length (queued_jobs w))) w

pub record JobUpdate : Type 0 where
  pub status : Option FileUploadStatus
  pub sub_status : Option String
  pub progress : Option ℕ
  pub error : Option String
  pub retries : Option ℕ

-- `updateJob`, which the service calls while it works.
unfoldable pub update_job : String → JobUpdate → World → World
unfolding update_at
update_job job_id u w =
    update_at job_id
      (λ j. record j {
        status = get_or u.status j.status;
        sub_status = get_or u.sub_status j.sub_status;
        progress = get_or u.progress j.progress;
        error = or_else u.error j.error;
        retries = get_or u.retries j.retries;
      })
      w

-- The service is done with a file, or has thrown.
pub execution_ends : String → Result (Unit {0}) → World → Option World
unfolding settle manage update_at
execution_ends job_id (ok _) w = manage (settle job_id w)
execution_ends job_id (err message) w = manage (settle job_id (update_at job_id (failed message) w))

-- A timer of `addFileJob` fires.
pub queue_timer_fires : World → Option World
unfolding manage
queue_timer_fires w = manage (record w { queue_timers = w.queue_timers - 1 })
