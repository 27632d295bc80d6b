-- ===== src/FileStore/Uploads/Starts.antt =====
-- The jobs that the queue takes are there, each once, with their files; with a folder they all start.
use gpt.Prelude.{
  ℕ, zero, suc, ◌+◌, String, ◌≡◌, refl, sym, ap, ◌∙◌, inl, inr, Bool, true, false, Option, none,
  some, List, [], ◌∷◌, arith, eq_iff, ◌==◌, Bool-cases, Option-cases, is_some, In, here, there,
  length, filter, take, filter-In, lookup, values, lookup-insert,
}
use gpt.FileStore.State.{FileUploadJob, FileSystemState}
use gpt.FileStore.Uploads.{World, File, jobs_of, converted, execute_all, queued_jobs}
use gpt.FileStore.Uploads.Jobs.{Jobs, count, weight, Distinct, lookup-value}
use gpt.FileStore.Uploads.Orderly.{runs, waits, IsOrderly, update_at-some, update_at-count}
use gpt.FileStore.Uploads.Launch.{
  waiting, running, folder_of, begin, begin-folder, begin-blobs, begin-IsOrderly, execute-starts,
}

abbrev pub Apart : List FileUploadJob → Type 0
Apart [] = Unit
Apart (j ∷ js) = ((x : FileUploadJob) → In x js → (j.id == x.id) ≡ false) × Apart js

values-Apart : (m : Jobs) → Distinct m → Apart (values m)
unfolding lookup
values-Apart [] d = tt
values-Apart ((name, j) ∷ m) (fresh, own, d) = (
  λ x i. elim (Bool-cases (j.id == x.id)) [
    | inr f ↦ f
    | inl t ↦
        let same : name ≡ x.id = sym own ∙ (eq_iff j.id x.id).0 t in
        let found : lookup x.id m ≡ some x = lookup-value m d i in
        absurd (cc (let q : none ≡ some x = sym fresh ∙ rw same found in q))
  ],
  values-Apart m d,
)

filter-Apart : (p : FileUploadJob → Bool) (js : List FileUploadJob) → Apart js → Apart (filter p js)
filter-Apart p [] a = tt
filter-Apart p (j ∷ js) (far, a) = elim (Bool-cases (p j)) [
  | inl t ↦ rw t (λ x i. far x (filter-In p js i).0, filter-Apart p js a)
  | inr f ↦ rw f (filter-Apart p js a)
]

take-In : (n : ℕ) (js : List FileUploadJob) {j : FileUploadJob} → In j (take n js) → In j js
take-In zero js i = elim i [ ]
take-In (suc n) [] i = elim i [ ]
take-In (suc n) (x ∷ js) here = here
take-In (suc n) (x ∷ js) (there i) = there (take-In n js i)

take-Apart : (n : ℕ) (js : List FileUploadJob) → Apart js → Apart (take n js)
take-Apart zero js a = tt
take-Apart (suc n) [] a = tt
take-Apart (suc n) (j ∷ js) (far, a) = (λ x i. far x (take-In n js i), take-Apart n js a)

-- A job that can start.
abbrev pub Waits : World → FileUploadJob → Type 0
Waits w j =
    (lookup j.id (jobs_of w) ≡ some j)
    × (waits j ≡ true)
    × (file : File) × (lookup j.id w.file_blob_store ≡ some file)

pub taken-Waits :
    (n : ℕ) (w : World) (j : FileUploadJob)
    → IsOrderly w
    → In j (take n (queued_jobs w))
    → Waits w j
taken-Waits n w j o i =
    let (listed, waited) = filter-In waits (values (jobs_of w)) (take-In n (queued_jobs w) i) in
    let found = lookup-value (jobs_of w) o.distinct listed in
    elim (Option-cases (lookup j.id w.file_blob_store)) [
      | inr (file, stored) ↦ (found, waited, file, stored)
      | inl lost ↦
          let h : is_some (lookup j.id w.file_blob_store) ≡ true = o.stored j.id j found waited in
          absurd (cc (let q : false ≡ true = rw lost at h in q))
    ]

pub taken-Apart : (n : ℕ) (w : World) → IsOrderly w → Apart (take n (queued_jobs w))
taken-Apart n w o =
    take-Apart n (queued_jobs w)
      (filter-Apart waits (values (jobs_of w)) (values-Apart (jobs_of w) o.distinct))

pub IsOrderly-same :
    (v t : World)
    → t.store ≡ v.store
    → t.file_blob_store ≡ v.file_blob_store
    → IsOrderly v
    → IsOrderly t
IsOrderly-same v t stores blobs o = record {
  distinct = rw stores o.distinct;
  stored = λ id j found waited. rw blobs (o.stored id j (rw stores at found) waited);
}

-- A job that does not wait is left as it is.
abbrev pub Keeps : World → World → Type 0
Keeps w t =
    (id : String) (x : FileUploadJob)
    → lookup id (jobs_of w) ≡ some x
    → waits x ≡ false
    → lookup id (jobs_of t) ≡ some x

-- What has started when the queue took `js`.
abbrev pub Started : List FileUploadJob → World → World → Type 0
Started js w t =
    IsOrderly t
    × (folder_of t ≡ folder_of w)
    × (waiting t + length js ≡ waiting w)
    × (running t ≡ running w + length js)
    × Keeps w t

begin-exact :
    (w : World) (j : FileUploadJob)
    → Waits w j
    → (waiting (begin j.id w) + 1 ≡ waiting w) × (running (begin j.id w) ≡ running w + 1)
unfolding begin
begin-exact w j (found, waited, _, _) =
    let c = update_at-count waits j.id converted w j found in
    let d = update_at-count runs j.id converted w j found in
    let one : weight waits (some j) ≡ 1 = rw waited refl in
    let idle : weight runs (some j) ≡ 0 = ground (arith, waited) in
    (omega (arith, c, one), omega (arith, d, idle))

begin-Keeps : (w : World) (j : FileUploadJob) → Waits w j → Keeps w (begin j.id w)
unfolding begin
begin-Keeps w j (at_j, waited, _, _) = λ id x found idle. elim (Bool-cases (j.id == id)) [
  | inl t ↦
      let same : j.id ≡ id = (eq_iff j.id id).0 t in
      let q : some j ≡ some x = sym at_j ∙ rw same found in
      let k : j ≡ x = cc in absurd (cc (let r : true ≡ false = sym waited ∙ rw k idle in r))
  | inr f ↦
      rw (update_at-some j.id converted w j at_j)
        (lookup-insert j.id id (converted j) (jobs_of w) ∙ rw f found)
]

begin-Waits :
    (w t : World) (j x : FileUploadJob)
    → t.store ≡ (begin j.id w).store
    → t.file_blob_store ≡ w.file_blob_store
    → Waits w j
    → (j.id == x.id) ≡ false
    → Waits w x
    → Waits t x
unfolding begin
begin-Waits w t j x stores blobs (at_j, _, _, _) far (found, waited, file, stored) = (
  rw (stores, update_at-some j.id converted w j at_j)
      (lookup-insert j.id x.id (converted j) (jobs_of w) ∙ rw far found),
  waited,
  file,
  rw blobs stored,
)

pub execute_all-starts :
    (manage : World → Option World) (folder : String) (js : List FileUploadJob) (w : World)
    → IsOrderly w
    → folder_of w ≡ some folder
    → Apart js
    → ((j : FileUploadJob) → In j js → Waits w j)
    → (t : World) × (execute_all manage js w ≡ some t) × Started js w t
unfolding execute_all
execute_all-starts manage folder [] w o at_ apart ready =
    (w, refl, (o, refl, omega arith, omega arith, λ id x h i. h))
execute_all-starts manage folder (j ∷ js) w o at_ (far, apart) ready =
    let (found, waited, file, stored) = ready j here in
    let (t, runs_, stores, blobs) = execute-starts manage j.id folder w j file found stored at_ in
    let folders : folder_of t ≡ folder_of w =
      ap (λ (s : FileSystemState). s.current_folder_id) stores ∙ begin-folder j.id w in
    let o' =
      IsOrderly-same (begin j.id w) t stores (blobs ∙ sym (begin-blobs j.id w))
        (begin-IsOrderly j.id w o) in
    let (u, rest, (ou, fu, wu, ru, ku)) =
      execute_all-starts manage folder js t o' (folders ∙ at_) apart
        (λ x i. begin-Waits w t j x stores blobs (ready j here) (far x i) (ready x (there i))) in
    let kt : Keeps w t = λ id x h i.
      ap (λ (s : FileSystemState). lookup id s.file_processing_jobs) stores
      ∙ begin-Keeps w j (ready j here) id x h i in
    let exact = begin-exact w j (ready j here) in
    let wt : waiting t ≡ waiting (begin j.id w) =
      ap (λ (s : FileSystemState). count waits s.file_processing_jobs) stores in
    let rt : running t ≡ running (begin j.id w) =
      ap (λ (s : FileSystemState). count runs s.file_processing_jobs) stores in
    (
      u,
      rw runs_ rest,
      (
        ou,
        fu ∙ folders,
        omega (arith, wu, wt, exact),
        omega (arith, ru, rt, exact),
        λ id x h i. ku id x (kt id x h i) i,
      ),
    )
