-- ===== src/Prelude/Lists.antt =====
-- Arrays as lists: `filter`, `find`, `some`, `slice`, `length`, and membership.
use Prim.Native.Nat.{ℕ, zero, suc, ◌+◌, ◌-◌, ◌≤◌, ◌<◌, min}
use mathlib.Core.Path.{◌≡◌, refl, ap}
use mathlib.Core.Bool.{Bool, true, false, ◌||◌}
use mathlib.Core.Logic.{◌⊎◌, inl, inr}
use mathlib.Core.Option.{Option, none, some}
use mathlib.Core.List.{List, [], ◌∷◌, ◌++◌}
use native.Mathlib.Omega.{arith}
use gpt.Prelude.Tests.{if◌then◌else◌, Bool-cases}

pub data In {ℓ} {A : Type ℓ} (a : A) : List A → Type ℓ where
  here : {xs : List A} → In a (a ∷ xs)
  there : {x : A} {xs : List A} → In a xs → In a (x ∷ xs)

module _ {ℓ} {A : Type ℓ} where
  abbrev pub length : List A → ℕ
  length [] = 0
  length (x ∷ xs) = suc (length xs)

  abbrev pub filter : (A → Bool) → List A → List A
  filter p [] = []
  filter p (x ∷ xs) = let rest = filter p xs in if p x then x ∷ rest else rest

  abbrev pub find? : (A → Bool) → List A → Option A
  find? p [] = none
  find? p (x ∷ xs) = if p x then some x else find? p xs

  abbrev pub any : (A → Bool) → List A → Bool
  any p [] = false
  any p (x ∷ xs) = p x || any p xs

  abbrev pub get_elem? : List A → ℕ → Option A
  get_elem? [] i = none
  get_elem? (x ∷ xs) zero = some x
  get_elem? (x ∷ xs) (suc i) = get_elem? xs i

  abbrev pub take : ℕ → List A → List A
  take zero xs = []
  take (suc n) [] = []
  take (suc n) (x ∷ xs) = x ∷ take n xs

  abbrev pub drop : ℕ → List A → List A
  drop zero xs = xs
  drop (suc n) [] = []
  drop (suc n) (x ∷ xs) = drop n xs

module _ {ℓ} {A : Type ℓ} where
  -- To split on a computed list and keep the equation.
  pub List-cases : (xs : List A) → (xs ≡ []) ⊎ ((y : A) × (ys : List A) × (xs ≡ y ∷ ys))
  List-cases [] = inl refl
  List-cases (x ∷ xs) = inr (x, xs, refl)

  pub length-append : (xs ys : List A) → length (xs ++ ys) ≡ length xs + length ys
  length-append [] ys = omega arith
  length-append (x ∷ xs) ys = omega (arith, length-append xs ys)

  pub length-take : (n : ℕ) (xs : List A) → length (take n xs) ≡ min n (length xs)
  length-take zero xs = omega arith
  length-take (suc n) [] = omega arith
  length-take (suc n) (x ∷ xs) = omega (arith, length-take n xs)

  pub length-drop : (n : ℕ) (xs : List A) → length (drop n xs) ≡ length xs - n
  length-drop zero xs = omega arith
  length-drop (suc n) [] = omega arith
  length-drop (suc n) (x ∷ xs) = omega (arith, length-drop n xs)

  pub take-append-drop : (n : ℕ) (xs : List A) → take n xs ++ drop n xs ≡ xs
  take-append-drop zero xs = refl
  take-append-drop (suc n) [] = refl
  take-append-drop (suc n) (x ∷ xs) = ap (◌∷◌ x) (take-append-drop n xs)

  pub In-cons : {a x : A} {xs : List A} → In a (x ∷ xs) → (a ≡ x) ⊎ In a xs
  In-cons here = inl refl
  In-cons (there i) = inr i

  pub In-length : {a : A} {xs : List A} → In a xs → 0 < length xs
  In-length here = omega arith
  In-length (there i) = omega arith

  pub not-In-nil : {a : A} (xs : List A) → xs ≡ [] → In a xs → ⊥
  not-In-nil xs e (here) = cc
  not-In-nil xs e (there i) = cc

  pub filter-In : (p : A → Bool) (xs : List A) {a : A} → In a (filter p xs) → In a xs × (p a ≡ true)
  filter-In p [] m = absurd (not-In-nil [] refl m)
  filter-In p (x ∷ xs) {a} m = elim (Bool-cases (p x)) [
    | inl e ↦ elim (In-cons (let m' : In a (x ∷ filter p xs) = rw e at m in m')) [
      | inl q ↦ (rw q here, rw q e)
      | inr i ↦ (there (filter-In p xs i).0, (filter-In p xs i).1)
    ]
    | inr e ↦
        let (i, t) = filter-In p xs (let m' : In a (filter p xs) = rw e at m in m') in (there i, t)
  ]

  pub In-filter : (p : A → Bool) {a : A} {xs : List A} → In a xs → p a ≡ true → In a (filter p xs)
  In-filter p (here) e = rw e here
  In-filter p (there {x} i) e = elim (Bool-cases (p x)) [
    | inl t ↦ rw t (there (In-filter p i e))
    | inr f ↦ rw f (In-filter p i e)
  ]

  pub filter-nil : (p : A → Bool) {a : A} (xs : List A) → In a xs → filter p xs ≡ [] → p a ≡ false
  filter-nil p {a} xs i e = elim (Bool-cases (p a)) [
    | inl t ↦ absurd (not-In-nil (filter p xs) e (In-filter p i t))
    | inr f ↦ f
  ]

  pub filter-swap : (p q : A → Bool) (xs : List A) → filter p (filter q xs) ≡ filter q (filter p xs)
  filter-swap p q [] = refl
  filter-swap p q (x ∷ xs) = ground (arith, filter-swap p q xs)

  pub filter-append :
      (p : A → Bool) (xs ys : List A) → filter p (xs ++ ys) ≡ filter p xs ++ filter p ys
  filter-append p [] ys = refl
  filter-append p (x ∷ xs) ys = elim (Bool-cases (p x)) [
    | inl t ↦ rw t (ap (◌∷◌ x) (filter-append p xs ys))
    | inr f ↦ rw f (filter-append p xs ys)
  ]

  pub length-filter : (p : A → Bool) (xs : List A) → length (filter p xs) ≤ length xs
  length-filter p [] = omega arith
  length-filter p (x ∷ xs) = ground (arith, length-filter p xs)

  pub get_elem?-In : (xs : List A) (i : ℕ) {a : A} → get_elem? xs i ≡ some a → In a xs
  get_elem?-In [] i e = cc
  get_elem?-In (x ∷ xs) zero {a} e = let p : x ≡ a = cc in rw p here
  get_elem?-In (x ∷ xs) (suc i) e = there (get_elem?-In xs i e)

  pub get_elem?-lt : (xs : List A) (i : ℕ) → i < length xs → (a : A) × (get_elem? xs i ≡ some a)
  get_elem?-lt [] i h = elim h [ ]
  get_elem?-lt (x ∷ xs) zero h = (x, refl)
  get_elem?-lt (x ∷ xs) (suc i) h = get_elem?-lt xs i (omega arith)
