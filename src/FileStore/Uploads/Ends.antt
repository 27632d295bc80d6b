-- ===== src/FileStore/Uploads/Ends.antt =====
-- A round of the queue ends, whatever fails, and stays within the limit.
use gpt.Prelude.{
  ℕ, zero, suc, ◌-◌, ◌≤◌, ◌<◌, max, min, String, ◌≡◌, refl, sym, ap, ◌∙◌, ◌⊎◌, inl, inr, Option,
  none, some, List, [], ◌∷◌, arith, ltb, ltb→lt, Bool-cases, Option-cases, In, here, length, take,
  length-take, List-cases,
}
use gpt.FileStore.State.{FileUploadJob}
use gpt.FileStore.Uploads.{World, queued_jobs, execute_job, execute_all, manage_job_queue, manage}
use gpt.FileStore.Uploads.Orderly.{IsOrderly}
use gpt.FileStore.Uploads.Launch.{
  waiting, running, folder_of, begin, give_up, begin-folder, give_up-folder, begin-IsOrderly,
  give_up-IsOrderly, begin-lt, begin-counts, give_up-counts, execute-fails,
}
use gpt.FileStore.Uploads.Starts.{Started, taken-Waits, taken-Apart, execute_all-starts}

-- What a round comes to where no folder is open: each execution fails at once.
abbrev Failed : World → World → Type 0
Failed w t = IsOrderly t × (folder_of t ≡ none) × (waiting t ≤ waiting w) × (running t ≤ running w)

-- No job waits, or three and more are worked on.
abbrev pub Drained : World → Type 0
Drained t = (waiting t ≡ 0) ⊎ (3 ≤ running t)

Fails : (World → Option World) → ℕ → Type 0
Fails manage depth =
    (w : World)
    → IsOrderly w
    → folder_of w ≡ none
    → waiting w < depth
    → (t : World) × (manage w ≡ some t) × Failed w t × Drained t

module _ (manage : World → Option World) (depth : ℕ) (fails : Fails manage depth) where
  execute-Failed :
      (id : String) (w : World)
      → IsOrderly w
      → folder_of w ≡ none
      → waiting (begin id w) < depth
      → (t : World) × (execute_job manage id w ≡ some t) × Failed w t × Drained t
  unfolding Fails
  execute-Failed id w o nowhere enough =
      let (message, e) = execute-fails manage id w nowhere in
      let v = give_up id message (begin id w) in
      let (less, same) = give_up-counts id message w in
      let (less', _) = begin-counts id w in
      let (t, done, (ot, ft, wt, rt), empties) =
        fails v (give_up-IsOrderly id message (begin id w) (begin-IsOrderly id w o))
          (give_up-folder id message (begin id w) ∙ begin-folder id w ∙ nowhere)
          (omega (arith, less, enough)) in
      (t, e ∙ done, (ot, ft, omega (arith, wt, less, less'), omega (arith, rt, same)), empties)

  -- Once nothing waits, the rest of the loop only fails again.
  execute_all-Failed :
      (js : List FileUploadJob) (w : World)
      → IsOrderly w
      → folder_of w ≡ none
      → waiting w < depth
      → (t : World) × (execute_all manage js w ≡ some t) × Failed w t
  unfolding execute_all
  execute_all-Failed [] w o nowhere enough = (w, refl, (o, nowhere, omega arith, omega arith))
  execute_all-Failed (j ∷ js) w o nowhere enough =
      let (less, _) = begin-counts j.id w in
      let (t, done, (ot, ft, wt, rt), _) =
        execute-Failed j.id w o nowhere (omega (arith, less, enough)) in
      let (u, rest, (ou, fu, wu, ru)) = execute_all-Failed js t ot ft (omega (arith, wt, enough)) in
      (u, rw done rest, (ou, fu, omega (arith, wt, wu), omega (arith, rt, ru)))

pub taken-length :
    (w : World) → length (take (3 - running w) (queued_jobs w)) ≡ min (3 - running w) (waiting w)
taken-length w = length-take (3 - running w) (queued_jobs w)

manage_job_queue-Fails : (depth : ℕ) → Fails (manage_job_queue depth) depth
unfolding Fails manage_job_queue execute_all
manage_job_queue-Fails zero w o nowhere enough = absurd (omega (arith, enough))
manage_job_queue-Fails (suc depth) w o nowhere enough =
    elim (List-cases (take (3 - running w) (queued_jobs w))) [
      | inl none_ ↦
          let empty : 0 ≡ min (3 - running w) (waiting w) =
            sym (ap length none_) ∙ taken-length w in
          (
            w,
            rw (none_, manage_job_queue, execute_all) refl,
            (o, nowhere, omega arith, omega arith),
            elim (Bool-cases (ltb (running w) 3)) [
              | inl free ↦ inl (omega (arith, empty, ltb→lt (running w) 3 free))
              | inr full ↦ inr (ground (arith, full))
            ],
          )
      | inr (j, js, listed) ↦
          let first : In j (take (3 - running w) (queued_jobs w)) = rw listed here in
          let (found, waited, _, _) = taken-Waits (3 - running w) w j o first in
          let some_ : suc (length js) ≡ min (3 - running w) (waiting w) =
            sym (ap length listed) ∙ taken-length w in
          let less = begin-lt j.id w j found waited in
          let fails = manage_job_queue-Fails depth in
          let (t, done, (ot, ft, wt, rt), empties) =
            execute-Failed (manage_job_queue depth) depth fails j.id w o nowhere
              (omega (arith, less, enough)) in
          let none_left : waiting t ≡ 0 = elim empties [
            | inl e ↦ e
            | inr full ↦ absurd (omega (arith, full, rt, some_))
          ] in
          let (u, rest, (ou, fu, wu, ru)) =
            execute_all-Failed (manage_job_queue depth) depth fails js t ot ft
              (omega (arith, none_left, less, enough)) in
          (
            u,
            rw (listed, manage_job_queue, execute_all) (rw done rest),
            (ou, fu, omega (arith, wt, wu), omega (arith, rt, ru)),
            inl (omega (arith, none_left, wu)),
          )
    ]

-- With a folder open, a round starts as many jobs as there are free places and waiting jobs.
pub manage-Started :
    (w : World) (folder : String)
    → IsOrderly w
    → folder_of w ≡ some folder
    → (t : World) × (manage w ≡ some t) × Started (take (3 - running w) (queued_jobs w)) w t
unfolding manage manage_job_queue
manage-Started w folder o at_ =
    execute_all-starts (manage_job_queue (waiting w)) folder (take (3 - running w) (queued_jobs w))
      w o at_ (taken-Apart (3 - running w) w o) (λ j i. taken-Waits (3 - running w) w j o i)

pub manage-ends :
    (w : World)
    → IsOrderly w
    → (t : World) × (manage w ≡ some t)
      × IsOrderly t
      × (folder_of t ≡ folder_of w)
      × (running t ≤ max 3 (running w))
      × Drained t
unfolding manage manage_job_queue Fails
manage-ends w o = elim (Option-cases (folder_of w)) [
  | inl nowhere ↦
      let (t, done, (ot, ft, wt, rt), empties) =
        manage_job_queue-Fails (suc (waiting w)) w o nowhere (omega arith) in
      (t, done, ot, ft ∙ sym nowhere, omega (arith, rt), empties)
  | inr (folder, at_) ↦
      let (t, done, (ot, ft, wt, rt, _)) = manage-Started w folder o at_ in
      let size = taken-length w in
      (
        t,
        done,
        ot,
        ft,
        omega (arith, wt, rt, size),
        elim (Bool-cases (ltb (running t) 3)) [
          | inl free ↦ inl (omega (arith, wt, rt, size, ltb→lt (running t) 3 free))
          | inr full ↦ inr (ground (arith, full))
        ],
      )
]
