-- ===== src/FileStore/Uploads/Events.antt =====
-- The events of the queue, in any order: they end and keep the queue in order. A job that cuts its
-- text gives up its place, which the queue fills.
use gpt.Prelude.{
  show, ℕ, ◌-◌, String, ◌≡◌, refl, sym, ◌∙◌, inl, inr, Bool, false, Option, none, some, List, [],
  ◌∷◌, arith, ◌==◌, Bool-cases, Option-cases, and_then, Result, ok, err, any, lookup, lookup-insert,
  lookup-remove, ◌^^◌,
}
use gpt.Types.{TextChunk}
use gpt.FileStore.State.{FileUploadStatus}
use gpt.FileStore.Uploads.{
  World, File, JobUpdate, jobs_of, update_at, is_queued, is_settled, settle, failed, add_file_job,
  dismiss_job, update_job, execution_ends, queue_timer_fires, manage,
}
use gpt.FileStore.Uploads.Jobs.{insert-Distinct, remove-Distinct}
use gpt.FileStore.Uploads.Orderly.{IsOrderly, update_at-IsOrderly, settle-IsOrderly}
use gpt.FileStore.Uploads.Ends.{manage-ends}

pub data Event : Type 0 where
  adds :
      (now : ℕ) (random : String)
      → File
      → (ui_id : String) (model_id : Option String) → Option (List TextChunk)
      → Event
  dismisses : (job_id : String) → Event
  updates : (job_id : String) → JobUpdate → Event
  ends : (job_id : String) → Result (Unit {0}) → Event
  timer_fires : Event

pub step : Event → World → Option World
step (adds now random file ui_id model_id chunks) w =
    some (add_file_job now random file ui_id model_id chunks w)
step (dismisses job_id) w = some (dismiss_job job_id w)
step (updates job_id u) w = some (update_job job_id u w)
step (ends job_id answer) w = execution_ends job_id answer w
step timer_fires w = queue_timer_fires w

pub run : List Event → World → Option World
unfolding step
run [] w = some w
run (e ∷ es) w = and_then (step e w) (run es)

-- The service puts no job back into the queue.
abbrev pub requeues : Event → Bool
requeues (updates job_id u) = elim u.status [ none ↦ false | some s ↦ is_queued s ]
requeues _ = false

add_file_job-IsOrderly :
    (now : ℕ) (random : String) (file : File) (ui_id : String) (model_id : Option String)
    (chunks : Option (List TextChunk)) (w : World)
    → IsOrderly w
    → IsOrderly (add_file_job now random file ui_id model_id chunks w)
unfolding add_file_job
add_file_job-IsOrderly now random file ui_id model_id chunks w o =
    let id = file.name ^^ "-" ^^ show file.size ^^ "-" ^^ show now ^^ "-" ^^ random in
    record {
      distinct = insert-Distinct id _ (jobs_of w) refl o.distinct;
      stored = λ i k at_i still. elim (Bool-cases (id == i)) [
        | inl t ↦ rw lookup-insert (rw t refl)
        | inr n ↦
            rw lookup-insert (
              rw n (o.stored i k (sym (lookup-insert id i _ (jobs_of w) ∙ rw n refl) ∙ at_i) still))
      ];
    }

dismiss_job-IsOrderly : (id : String) (w : World) → IsOrderly w → IsOrderly (dismiss_job id w)
unfolding dismiss_job
dismiss_job-IsOrderly id w o = elim (Option-cases (lookup id (jobs_of w))) [
  | inl missing ↦ rw (missing, dismiss_job) o
  | inr (job, found) ↦ elim (Bool-cases (is_settled job.status)) [
    | inr f ↦ rw (found, f, dismiss_job) o
    | inl t ↦
        rw (found, t, dismiss_job)
          (record {
            distinct = remove-Distinct id (jobs_of w) o.distinct;
            stored = λ i k at_i still. elim (Bool-cases (id == i)) [
              | inl e ↦
                  let gone : none ≡ some k =
                    sym (lookup-remove id i (jobs_of w) ∙ rw e refl) ∙ at_i in
                  absurd (cc gone)
              | inr n ↦ rw lookup-remove (
                  rw n
                    (o.stored i k (sym (lookup-remove id i (jobs_of w) ∙ rw n refl) ∙ at_i) still))
            ];
          })
  ]
]

update_job-IsOrderly :
    (id : String) (u : JobUpdate) (w : World)
    → requeues (updates id u) ≡ false
    → IsOrderly w
    → IsOrderly (update_job id u w)
unfolding update_job
update_job-IsOrderly id u w keeps o =
    update_at-IsOrderly _ (λ j. refl) (λ j q. ground (arith, keeps, q)) id w o

fail-IsOrderly :
    (id message : String) (w : World) → IsOrderly w → IsOrderly (update_at id (failed message) w)
fail-IsOrderly id message w o = update_at-IsOrderly (failed message) (λ j. refl) (λ j q. cc) id w o

round_ends : (w : World) → IsOrderly w → (t : World) × (manage w ≡ some t) × IsOrderly t
round_ends w o = let (t, done, ot, _, _, _) = manage-ends w o in (t, done, ot)

step-ends :
    (e : Event) (w : World)
    → requeues e ≡ false
    → IsOrderly w
    → (t : World) × (step e w ≡ some t) × IsOrderly t
unfolding step execution_ends queue_timer_fires
step-ends (adds now random file ui_id model_id chunks) w keeps o =
    (_, refl, add_file_job-IsOrderly now random file ui_id model_id chunks w o)
step-ends (dismisses id) w keeps o = (dismiss_job id w, refl, dismiss_job-IsOrderly id w o)
step-ends (updates id u) w keeps o = (update_job id u w, refl, update_job-IsOrderly id u w keeps o)
step-ends (ends id (ok answer)) w keeps o = round_ends (settle id w) (settle-IsOrderly id w o)
step-ends (ends id (err message)) w keeps o =
    round_ends (settle id (update_at id (failed message) w))
      (settle-IsOrderly id (update_at id (failed message) w) (fail-IsOrderly id message w o))
step-ends timer_fires w keeps o =
    round_ends (record w { queue_timers = w.queue_timers - 1 })
      (record { distinct = o.distinct; stored = o.stored })

-- Every history of the queue, of added and dismissed jobs, updates and ends of executions, and timers
-- in any order, comes to an end, with each job once under its id and each waiting job with its file,
-- if that holds at its start and no update puts a job back into the queue.
pub run-ends :
    (es : List Event) (w : World)
    → any requeues es ≡ false
    → IsOrderly w
    → (t : World) × (run es w ≡ some t) × IsOrderly t
unfolding run
run-ends [] w keeps o = (w, refl, o)
run-ends (e ∷ es) w keeps o =
    let first : requeues e ≡ false = ground (arith, keeps) in
    let others : any requeues es ≡ false = ground (arith, keeps) in
    let (t, done, ot) = step-ends e w first o in
    let (u, rest, ou) = run-ends es t others ot in (u, rw done rest, ou)

abbrev pub to_status : FileUploadStatus → JobUpdate
to_status s = record {
  status = some s;
  sub_status = none;
  progress = none;
  error = none;
  retries = none;
}
