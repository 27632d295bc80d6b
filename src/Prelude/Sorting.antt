-- ===== src/Prelude/Sorting.antt =====
-- `Array.prototype.sort` with a comparison of numeric keys: it is stable, so its result is the one
-- of insertion sort.
use Prim.Native.Nat.{ℕ, ◌≤◌}
use mathlib.Core.Path.{◌≡◌}
use mathlib.Core.List.{List, [], ◌∷◌}
use native.Mathlib.Omega.{arith}
use mathlib.Core.Logic.{◌⊎◌, inl, inr}
use gpt.Prelude.Lists.{In, here, there, In-cons}
use gpt.Prelude.Tests.{Bool-cases, leb, if◌then◌else◌}

module _ {ℓ} {A : Type ℓ} (key : A → ℕ) where
  abbrev pub insert_by : A → List A → List A
  insert_by a [] = a ∷ []
  insert_by a (x ∷ xs) = if leb (key a) (key x) then a ∷ x ∷ xs else x ∷ insert_by a xs

  unfoldable pub sort_by : List A → List A
  sort_by [] = []
  sort_by (x ∷ xs) = insert_by x (sort_by xs)

  -- Every key of the list is at least `n`.
  abbrev pub AtLeast : ℕ → List A → Type 0
  AtLeast n [] = Unit {0}
  AtLeast n (x ∷ xs) = (n ≤ key x) × AtLeast n xs

  abbrev pub IsSorted : List A → Type 0
  IsSorted [] = Unit {0}
  IsSorted (x ∷ xs) = AtLeast (key x) xs × IsSorted xs

  AtLeast-mono : (m n : ℕ) (xs : List A) → m ≤ n → AtLeast n xs → AtLeast m xs
  AtLeast-mono m n [] h a = tt
  AtLeast-mono m n (x ∷ xs) h (p, a) = (omega arith, AtLeast-mono m n xs h a)

  insert_by-AtLeast :
      (n : ℕ) (a : A) (xs : List A) → n ≤ key a → AtLeast n xs → AtLeast n (insert_by a xs)
  insert_by-AtLeast n a [] h l = (h, tt)
  insert_by-AtLeast n a (x ∷ xs) h l = ground (arith, insert_by-AtLeast n a xs h l.1)

  insert_by-IsSorted : (a : A) (xs : List A) → IsSorted xs → IsSorted (insert_by a xs)
  insert_by-IsSorted a [] s = (tt, tt)
  insert_by-IsSorted a (x ∷ xs) s = ground (
    arith,
    insert_by-IsSorted a xs s.1,
    insert_by-AtLeast (key x) a xs,
    AtLeast-mono (key a) (key x) xs,
  )

  pub sort_by-IsSorted : (xs : List A) → IsSorted (sort_by xs)
  unfolding sort_by
  sort_by-IsSorted [] = tt
  sort_by-IsSorted (x ∷ xs) = insert_by-IsSorted x (sort_by xs) (sort_by-IsSorted xs)

In-insert :
    {A : Type 0} (key : A → ℕ) (a : A) (xs : List A) {x : A}
    → (x ≡ a) ⊎ In x xs
    → In x (insert_by key a xs)
In-insert key a [] (inl e) = rw e here
In-insert key a [] (inr i) = elim i [ ]
In-insert key a (y ∷ ys) h = elim (Bool-cases (leb (key a) (key y))) [
  | inl t ↦ rw t (elim h [ inl e ↦ rw e here | inr i ↦ there i ])
  | inr f ↦ rw f (elim h [
    | inl e ↦ there (In-insert key a ys (inl e))
    | inr i ↦ elim (In-cons i) [ inl e ↦ rw e here | inr j ↦ there (In-insert key a ys (inr j)) ]
  ])
]

insert-In :
    {A : Type 0} (key : A → ℕ) (a : A) (xs : List A) {x : A}
    → In x (insert_by key a xs)
    → (x ≡ a) ⊎ In x xs
insert-In key a [] i = In-cons i
insert-In key a (y ∷ ys) {x} i = elim (Bool-cases (leb (key a) (key y))) [
  | inl t ↦ In-cons (let j : In x (a ∷ y ∷ ys) = rw t at i in j)
  | inr f ↦ elim (In-cons (let j : In x (y ∷ insert_by key a ys) = rw f at i in j)) [
    | inl e ↦ inr (rw e here)
    | inr k ↦ elim (insert-In key a ys k) [ inl e ↦ inl e | inr l ↦ inr (there l) ]
  ]
]

pub In-sort : {A : Type 0} (key : A → ℕ) (xs : List A) {x : A} → In x xs → In x (sort_by key xs)
unfolding sort_by
In-sort key [] i = i
In-sort key (y ∷ ys) i = elim (In-cons i) [
  | inl e ↦ In-insert key y (sort_by key ys) (inl e)
  | inr j ↦ In-insert key y (sort_by key ys) (inr (In-sort key ys j))
]

pub sort-In : {A : Type 0} (key : A → ℕ) (xs : List A) {x : A} → In x (sort_by key xs) → In x xs
unfolding sort_by
sort-In key [] i = i
sort-In key (y ∷ ys) i = elim (insert-In key y (sort_by key ys) i) [
  | inl e ↦ rw e here
  | inr j ↦ there (sort-In key ys j)
]
