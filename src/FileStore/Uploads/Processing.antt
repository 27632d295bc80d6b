-- ===== src/FileStore/Uploads/Processing.antt =====
-- services/fileProcessingService.ts: what `processFile` tells of its job in the turn in which the queue
-- calls it, before its own first await. The upload that it may begin is `upload_files`.
use gpt.Prelude.{
  ℕ, String, Bool, true, false, ◌||◌, Option, none, some, List, [], ◌∷◌, if◌then◌else◌, and_then,
  length, drop, given,
}
use gpt.FileUtils.{is_text_mime_type}
use gpt.FileStore.State.{
  FileUploadStatus, converting, uploading, chunking, FileType, pdf, markdown, FileUploadJob,
}
use gpt.FileStore.Uploads.{World, Start, JobUpdate, manage, update_job}

abbrev tells : FileUploadStatus → String → Option ℕ → JobUpdate
tells status sub_status progress = record {
  status = some status;
  sub_status = some sub_status;
  progress = progress;
  error = none;
  retries = none;
}

-- Without a model the service throws, and its own `catch` tells of the error.
abbrev pdf_begins : FileUploadJob → JobUpdate
pdf_begins job = elim (given job.model_id) [
  | some _ ↦ tells converting "Preparing PDF..." none
  | none ↦ record {
    status = some FileUploadStatus.error;
    sub_status = none;
    progress = none;
    error = some "Missing modelId for PDF processing.";
    retries = none;
  }
]

abbrev text_begins : FileUploadJob → JobUpdate
text_begins job = elim job.chunks [
  | none ↦ tells chunking "Creating text chunks..." (some 30)
  | some _ ↦ tells uploading "Uploading..." (some 90)
]

abbrev is_pdf : FileType → Bool
is_pdf pdf = true
is_pdf _ = false

abbrev is_markdown : FileType → Bool
is_markdown markdown = true
is_markdown _ = false

abbrev pub first_update : Start → JobUpdate
first_update start =
    let job = start.job in
    if is_pdf job.file_type
    then pdf_begins job
    else if is_markdown job.file_type || is_text_mime_type start.file.type job.file_name
    then text_begins job
    else tells uploading "Uploading..." (some 50)

unfoldable pub first_updates : List Start → World → World
first_updates [] w = w
first_updates (s ∷ ss) w = first_updates ss (update_job s.job.id (first_update s) w)

-- A round of the queue, and the first update of each service that it has called. In the source the
-- update comes before the next job of the loop is launched. It touches its own job only, and where each
-- waiting job has its file, the loop does not look at the statuses again after the first launch.
unfoldable pub turn : World → Option World
unfolding first_updates
turn w = and_then (manage w) (λ t. some (first_updates (drop (length w.started) t.started) t))
