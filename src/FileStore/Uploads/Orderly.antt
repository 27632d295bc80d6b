-- ===== src/FileStore/Uploads/Orderly.antt =====
-- What the queue keeps: each job stands once, under its id, and a job that waits has its file.
use gpt.Prelude.{
  ◌+◌, String, ◌≡◌, refl, sym, ◌∙◌, inl, inr, Bool, true, none, some, arith, eq_iff, ◌==◌,
  Bool-cases, Option-cases, is_some, lookup, insert, lookup-insert, lookup-remove,
}
use gpt.FileStore.State.{FileUploadJob}
use gpt.FileStore.Uploads.{
  World, jobs_of, set_jobs, update_at, is_active, is_queued, is_settled, settle,
}
use gpt.FileStore.Uploads.Jobs.{count, weight, count-insert, Distinct, insert-Distinct, lookup-own}

abbrev pub runs : FileUploadJob → Bool
runs j = is_active j.status

abbrev pub waits : FileUploadJob → Bool
waits j = is_queued j.status

pub record IsOrderly (w : World) : Type 0 where
  pub distinct : Distinct (jobs_of w)
  pub stored :
      (id : String) (j : FileUploadJob)
      → lookup id (jobs_of w) ≡ some j
      → waits j ≡ true
      → is_some (lookup id w.file_blob_store) ≡ true

pub update_at-some :
    (id : String) (f : FileUploadJob → FileUploadJob) (w : World) (j : FileUploadJob)
    → lookup id (jobs_of w) ≡ some j
    → update_at id f w ≡ set_jobs (insert id (f j) (jobs_of w)) w
unfolding update_at
update_at-some id f w j found = rw (found, update_at) refl

pub update_at-none :
    (id : String) (f : FileUploadJob → FileUploadJob) (w : World)
    → lookup id (jobs_of w) ≡ none
    → update_at id f w ≡ w
unfolding update_at
update_at-none id f w missing = rw (missing, update_at) refl

-- How a change of one job changes the number of jobs of a kind.
pub update_at-count :
    (p : FileUploadJob → Bool) (id : String) (f : FileUploadJob → FileUploadJob) (w : World)
    (j : FileUploadJob)
    → lookup id (jobs_of w) ≡ some j
    → count p (jobs_of (update_at id f w)) + weight p (some j)
      ≡ count p (jobs_of w) + weight p (some (f j))
update_at-count p id f w j found =
    let c : count p (insert id (f j) (jobs_of w)) + weight p (lookup id (jobs_of w))
        ≡ count p (jobs_of w) + weight p (some (f j)) =
      count-insert p id (f j) (jobs_of w) in
    rw (update_at-some id f w j found) (rw found at c)

module _ (f : FileUploadJob → FileUploadJob) (own : (j : FileUploadJob) → (f j).id ≡ j.id)
    (waited : (j : FileUploadJob) → waits (f j) ≡ true → waits j ≡ true) where
  pub update_at-IsOrderly : (id : String) (w : World) → IsOrderly w → IsOrderly (update_at id f w)
  update_at-IsOrderly id w o = elim (Option-cases (lookup id (jobs_of w))) [
    | inl missing ↦ rw (update_at-none id f w missing) o
    | inr (j, found) ↦ rw (update_at-some id f w j found) (record {
      distinct =
          insert-Distinct id (f j) (jobs_of w) (own j ∙ lookup-own id (jobs_of w) o.distinct found)
            o.distinct;
      stored = λ i k at_i still. elim (Bool-cases (id == i)) [
        | inl t ↦
            let same : id ≡ i = (eq_iff id i).0 t in
            let here_ : some (f j) ≡ some k =
              sym (lookup-insert id i (f j) (jobs_of w) ∙ rw t refl) ∙ at_i in
            let k_is : f j ≡ k = cc in rw⁻¹ same (o.stored id j found (waited j (rw k_is still)))
        | inr n ↦ o.stored i k (sym (lookup-insert id i (f j) (jobs_of w) ∙ rw n refl) ∙ at_i) still
      ];
    })
  ]

settled-not_waiting : (j : FileUploadJob) → is_settled j.status ≡ true → waits j ≡ true → ⊥
settled-not_waiting j s q = ground arith

pub settle-jobs : (id : String) (w : World) → jobs_of (settle id w) ≡ jobs_of w
unfolding settle
settle-jobs id w = ground arith

pub settle-IsOrderly : (id : String) (w : World) → IsOrderly w → IsOrderly (settle id w)
unfolding settle
settle-IsOrderly id w o = elim (Option-cases (lookup id (jobs_of w))) [
  | inl missing ↦ rw (missing, settle) o
  | inr (job, found) ↦ elim (Bool-cases (is_settled job.status)) [
    | inr f ↦ rw (found, f, settle) o
    | inl t ↦
        rw (found, t, settle)
          (record {
            distinct = o.distinct;
            stored = λ i k at_i still. elim (Bool-cases (id == i)) [
              | inl e ↦
                  let same : id ≡ i = (eq_iff id i).0 e in
                  let there_ : some job ≡ some k = sym found ∙ rw same at_i in
                  let k_is : job ≡ k = cc in absurd (settled-not_waiting job t (rw k_is still))
              | inr n ↦ rw lookup-remove (rw n (o.stored i k at_i still))
            ];
          })
  ]
]
