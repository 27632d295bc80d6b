-- ===== src/FileStore/Uploads/Launch.antt =====
-- One execution up to its first await: what it does to the numbers of waiting and of running jobs.
use gpt.Prelude.{
  ℕ, ◌+◌, ◌≤◌, ◌<◌, String, ◌≡◌, refl, ◌∙◌, inl, inr, true, Option, none, some, [], ◌∷◌, ◌++◌,
  arith, Option-cases, ok, err, lookup, ◌^^◌, lookup-insert_self,
}
use gpt.FileStore.State.{FileUploadJob}
use gpt.FileStore.Uploads.{
  World, File, Start, jobs_of, update_at, converted, failed, launch, settle, execute_job,
  existing_names,
}
use gpt.FileStore.Uploads.Jobs.{count, weight}
use gpt.FileStore.Uploads.Orderly.{
  runs, waits, IsOrderly, update_at-some, update_at-none, update_at-count, update_at-IsOrderly,
  settle-jobs, settle-IsOrderly,
}

abbrev pub waiting : World → ℕ
waiting w = count waits (jobs_of w)

abbrev pub running : World → ℕ
running w = count runs (jobs_of w)

abbrev pub folder_of : World → Option String
folder_of w = w.store.current_folder_id

unfoldable pub begin : String → World → World
begin id w = update_at id converted w

unfoldable pub give_up : String → String → World → World
give_up id message w = settle id (update_at id (failed message) w)

pub update_at-frame :
    (id : String) (f : FileUploadJob → FileUploadJob) (w : World)
    → (folder_of (update_at id f w) ≡ folder_of w)
      × ((update_at id f w).file_blob_store ≡ w.file_blob_store)
unfolding update_at
update_at-frame id f w = ground arith

pub begin-folder : (id : String) (w : World) → folder_of (begin id w) ≡ folder_of w
unfolding begin
begin-folder id w = (update_at-frame id converted w).0

pub begin-blobs : (id : String) (w : World) → (begin id w).file_blob_store ≡ w.file_blob_store
unfolding begin
begin-blobs id w = (update_at-frame id converted w).1

pub settle-folder : (id : String) (w : World) → folder_of (settle id w) ≡ folder_of w
unfolding settle
settle-folder id w = ground arith

pub give_up-folder :
    (id message : String) (w : World) → folder_of (give_up id message w) ≡ folder_of w
unfolding give_up
give_up-folder id message w =
    settle-folder id (update_at id (failed message) w) ∙ (update_at-frame id (failed message) w).0

pub begin-IsOrderly : (id : String) (w : World) → IsOrderly w → IsOrderly (begin id w)
unfolding begin
begin-IsOrderly id w o = update_at-IsOrderly converted (λ j. refl) (λ j h. cc) id w o

pub give_up-IsOrderly :
    (id message : String) (w : World) → IsOrderly w → IsOrderly (give_up id message w)
unfolding give_up
give_up-IsOrderly id message w o =
    settle-IsOrderly id (update_at id (failed message) w)
      (update_at-IsOrderly (failed message) (λ j. refl) (λ j h. cc) id w o)

-- A job that waited waits no more.
pub begin-lt :
    (id : String) (w : World) (j : FileUploadJob)
    → lookup id (jobs_of w) ≡ some j
    → waits j ≡ true
    → waiting (begin id w) < waiting w
unfolding begin
begin-lt id w j found waited =
    let c = update_at-count waits id converted w j found in
    let one : weight waits (some j) ≡ 1 = rw waited refl in omega (arith, c, one)

pub begin-counts :
    (id : String) (w : World)
    → (waiting (begin id w) ≤ waiting w) × (running (begin id w) ≤ running w + 1)
unfolding begin
begin-counts id w = elim (Option-cases (lookup id (jobs_of w))) [
  | inl missing ↦ rw (update_at-none id converted w missing) (omega arith, omega arith)
  | inr (j, found) ↦
      let c = update_at-count waits id converted w j found in
      let d = update_at-count runs id converted w j found in (omega (arith, c), omega (arith, d))
]

-- An execution that fails at once leaves no more jobs of either kind.
pub give_up-counts :
    (id message : String) (w : World)
    → (waiting (give_up id message (begin id w)) ≤ waiting (begin id w))
      × (running (give_up id message (begin id w)) ≤ running w)
unfolding give_up begin
give_up-counts id message w = elim (Option-cases (lookup id (jobs_of w))) [
  | inl missing ↦
      rw
        (
          settle-jobs,
          update_at-none id converted w missing,
          update_at-none id (failed message) w missing,
        )
        (omega arith, omega arith)
  | inr (j, found) ↦
      let begun = update_at id converted w in
      let at_id : lookup id (jobs_of begun) ≡ some (converted j) =
        rw (update_at-some id converted w j found)
          (lookup-insert_self id (converted j) (jobs_of w)) in
      let c = update_at-count waits id (failed message) begun (converted j) at_id in
      let d = update_at-count runs id (failed message) begun (converted j) at_id in
      let e = update_at-count runs id converted w j found in
      rw settle-jobs (omega (arith, c), omega (arith, d, e))
]

-- With a folder, a job that is there with its file is started.
pub execute-starts :
    (manage : World → Option World) (id folder : String) (w : World) (j : FileUploadJob)
    (file : File)
    → lookup id (jobs_of w) ≡ some j
    → lookup id w.file_blob_store ≡ some file
    → folder_of w ≡ some folder
    → (t : World) × (execute_job manage id w ≡ some t)
      × (t.store ≡ (begin id w).store)
      × (t.file_blob_store ≡ w.file_blob_store)
unfolding begin launch execute_job
execute-starts manage id folder w j file found stored here_ =
    let begun = update_at id converted w in
    let at_id : lookup id (jobs_of begun) ≡ some (converted j) =
      rw (update_at-some id converted w j found)
        (lookup-insert_self id (converted j) (jobs_of w)) in
    let frame = update_at-frame id converted w in
    let stored' : lookup id begun.file_blob_store ≡ some file = rw (frame.1) stored in
    let here' : folder_of begun ≡ some folder = frame.0 ∙ here_ in
    let start : Start = record {
      job = converted j;
      file = file;
      parent_id = folder;
      existing_file_names = existing_names folder begun.store;
    } in
    let launched : launch id begun ≡ ok start = rw (at_id, stored', here', launch) refl in
    (
      record begun { started = begun.started ++ start ∷ [] },
      rw (launched, execute_job) refl,
      refl,
      frame.1,
    )

launch-fails :
    (id : String) (w : World)
    → folder_of w ≡ none
    → (message : String) × (launch id w ≡ err message)
unfolding launch
launch-fails id w nowhere = elim (Option-cases (lookup id (jobs_of w))) [
  | inl missing ↦ ("Job " ^^ id ^^ " not found in state.", rw (missing, launch) refl)
  | inr (j, found) ↦ elim (Option-cases (lookup id w.file_blob_store)) [
    | inl lost ↦ ("File blob for job " ^^ id ^^ " not found.", rw (found, lost, launch) refl)
    | inr (file, stored) ↦
        ("No active folder to upload to.", rw (found, stored, nowhere, launch) refl)
  ]
]

-- With no folder, an execution fails at once.
pub execute-fails :
    (manage : World → Option World) (id : String) (w : World)
    → folder_of w ≡ none
    → (message : String) × (execute_job manage id w ≡ manage (give_up id message (begin id w)))
unfolding begin give_up execute_job
execute-fails manage id w nowhere =
    let (message, fails) =
      launch-fails id (update_at id converted w) ((update_at-frame id converted w).0 ∙ nowhere) in
    (message, rw (fails, execute_job) refl)
