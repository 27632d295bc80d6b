-- ===== src/FileStore/Uploads/Jobs.antt =====
-- The table of jobs: how a write changes the number of jobs of a kind, and that each job stands under
-- its id, once.
use gpt.Prelude.{
  ℕ, ◌+◌, String, ◌≡◌, refl, sym, ap, ◌∙◌, inl, inr, Bool, false, Option, none, some, [], ◌∷◌,
  arith, eq_iff, eq_refl, ◌==◌, if◌then◌else◌, Bool-cases, In, here, there, length, filter, Dict,
  lookup, insert, remove, values, lookup-insert, lookup-remove,
}
use gpt.FileStore.State.{FileUploadJob}

abbrev pub Jobs : Type 0
Jobs = Dict FileUploadJob

abbrev pub count : (FileUploadJob → Bool) → Jobs → ℕ
count p m = length (filter p (values m))

abbrev pub weight : (FileUploadJob → Bool) → Option FileUploadJob → ℕ
weight p none = 0
weight p (some j) = if p j then 1 else 0

pub count-insert :
    (p : FileUploadJob → Bool) (id : String) (new : FileUploadJob) (m : Jobs)
    → count p (insert id new m) + weight p (lookup id m) ≡ count p m + weight p (some new)
unfolding insert lookup
count-insert p id new [] = ground arith
count-insert p id new ((name, j) ∷ m) = ground (arith, count-insert p id new m)

name-ne_sym : (s t : String) → (s == t) ≡ false → (t == s) ≡ false
name-ne_sym s t h = ground (arith, eq_iff s t, eq_iff t s)

abbrev pub Distinct : Jobs → Type 0
Distinct [] = Unit
Distinct ((name, j) ∷ m) = (lookup name m ≡ none) × (j.id ≡ name) × Distinct m

pub insert-Distinct :
    (id : String) (new : FileUploadJob) (m : Jobs)
    → new.id ≡ id
    → Distinct m
    → Distinct (insert id new m)
unfolding insert lookup
insert-Distinct id new [] named d = (refl, named, tt)
insert-Distinct id new ((name, j) ∷ m) named (fresh, own, d) = elim (Bool-cases (name == id)) [
  | inl t ↦ rw t (fresh, named ∙ sym ((eq_iff name id).0 t), d)
  | inr f ↦ rw f (
    lookup-insert id name new m ∙ rw (name-ne_sym name id f) fresh,
    own,
    insert-Distinct id new m named d,
  )
]

pub remove-Distinct : (id : String) (m : Jobs) → Distinct m → Distinct (remove id m)
unfolding remove
remove-Distinct id [] d = tt
remove-Distinct id ((name, j) ∷ m) (fresh, own, d) = elim (Bool-cases (name == id)) [
  | inl t ↦ rw t (remove-Distinct id m d)
  | inr f ↦
      rw f (lookup-remove id name m ∙ rw (name-ne_sym name id f) fresh, own, remove-Distinct id m d)
]

-- A job is found under its id.
pub lookup-value :
    (m : Jobs) {j : FileUploadJob} → Distinct m → In j (values m) → lookup j.id m ≡ some j
unfolding lookup
lookup-value [] d i = elim i [ ]
lookup-value ((name, k) ∷ m) (fresh, own, d) here = rw (own, eq_refl) refl
lookup-value ((name, k) ∷ m) {j} (fresh, own, d) (there i) = elim (Bool-cases (name == j.id)) [
  | inl t ↦
      let found = lookup-value m d i in
      let same : name ≡ j.id = (eq_iff name j.id).0 t in
      absurd (cc (let q : none ≡ some j = sym fresh ∙ rw same found in q))
  | inr f ↦ rw f (lookup-value m d i)
]

-- A job stands under its own id.
pub lookup-own :
    (id : String) (m : Jobs) {j : FileUploadJob} → Distinct m → lookup id m ≡ some j → j.id ≡ id
unfolding lookup
lookup-own id [] d found = cc
lookup-own id ((name, k) ∷ m) {j} (fresh, own, d) found = elim (Bool-cases (name == id)) [
  | inl t ↦
      let found' : some k ≡ some j = rw t at found in
      let same : k ≡ j = cc in
      ap (λ (x : FileUploadJob). x.id) (sym same) ∙ own ∙ (eq_iff name id).0 t
  | inr f ↦ lookup-own id m d (rw f at found)
]
