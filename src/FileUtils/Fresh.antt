-- ===== src/FileUtils/Fresh.antt =====
-- The name is new, and the loop ends.
use gpt.Prelude.{
  ℕ, zero, suc, ◌≤◌, ◌<◌, String, ◌≡◌, refl, ◌⊎◌, inl, inr, true, false, not, some, List, [], ◌∷◌,
  arith, eq_iff, ◌==◌, eqb, eqb_iff, Bool-cases, length, filter, length-filter, show,
  show_injective,
}
use text.Mathlib.TextLemmas.{append_cancel_left, append_cancel_right}
use gpt.FileUtils.{has_name, base_name, numbered, next_name, get_unique_file_name}

numbered_injective : (desired : String) (i j : ℕ) → numbered desired i ≡ numbered desired j → i ≡ j
unfolding numbered
numbered_injective desired i j same = show_injective i j (
    append_cancel_right (show i) (show j) _
      (append_cancel_left " (" _ _ (append_cancel_left (base_name desired) _ _ same)))

others : String → List String → List String
others name names = filter (λ n. not (n == name)) names

others-has :
    (name wanted : String) (names : List String)
    → (wanted == name) ≡ false
    → has_name names wanted ≡ true
    → has_name (others name names) wanted ≡ true
unfolding others
others-has name wanted [] differs held = held
others-has name wanted (n ∷ names) differs held = ground (
  arith,
  others-has name wanted names differs,
  differs,
  held,
  eq_iff n name,
  eq_iff n wanted,
  eq_iff wanted name,
)

length-others :
    (name : String) (names : List String)
    → has_name names name ≡ true
    → length (others name names) < length names
unfolding others
length-others name [] held = cc
length-others name (n ∷ names) held = elim (Bool-cases (n == name)) [
  | inl t ↦ rw t (omega (arith, length-filter (λ m. not (m == name)) names))
  | inr f ↦
      let held' : has_name names name ≡ true = rw f at held in
      rw f (omega (arith, length-others name names held'))
]

-- Every numbered name from `counter` on that is taken stands in `left`.
Covers : String → List String → ℕ → List String → Type 0
Covers desired existing counter left =
    (j : ℕ)
    → counter ≤ j
    → has_name existing (numbered desired j) ≡ true
    → has_name left (numbered desired j) ≡ true

Covers-others :
    (desired : String) (existing : List String) (counter : ℕ) (left : List String)
    → Covers desired existing counter left
    → Covers desired existing (suc counter) (others (numbered desired counter) left)
unfolding Covers
Covers-others desired existing counter left covers = λ j later held.
    others-has (numbered desired counter) (numbered desired j) left
      (elim (Bool-cases (numbered desired j == numbered desired counter)) [
        | inl t ↦
            let same = (eq_iff (numbered desired j) (numbered desired counter)).0 t in
            absurd (omega (arith, later, numbered_injective desired j counter same))
        | inr f ↦ f
      ])
      (covers j (omega (arith, later)) held)

next_name-fresh :
    (fuel : ℕ) (desired : String) (existing : List String) (counter : ℕ) (left : List String)
    → Covers desired existing counter left
    → length left < fuel
    → (j : ℕ) × (next_name fuel desired existing counter ≡ some (numbered desired j))
      × (has_name existing (numbered desired j) ≡ false)
      × ((i : ℕ) → counter ≤ i → i < j → has_name existing (numbered desired i) ≡ true)
unfolding next_name Covers
next_name-fresh zero desired existing counter left covers enough = absurd (omega (arith, enough))
next_name-fresh (suc fuel) desired existing counter left covers enough =
    elim (Bool-cases (has_name existing (numbered desired counter))) [
      | inl t ↦
          let less =
            length-others (numbered desired counter) left (covers counter (omega arith) t) in
          let (j, found, new, taken) =
            next_name-fresh fuel desired existing (suc counter)
              (others (numbered desired counter) left)
              (Covers-others desired existing counter left covers) (omega (arith, less, enough)) in
          (
            j,
            rw t found,
            new,
            λ i low high. elim (Bool-cases (eqb counter i)) [
              | inl e ↦ rw⁻¹ ((eqb_iff counter i).0 e) t
              | inr e ↦ taken i (ground (arith, low, e)) high
            ],
          )
      | inr f ↦ (counter, rw f refl, f, λ i low high. absurd (omega (arith, low, high)))
    ]

-- The code gives back a wanted name that no file has, and for one that is taken its loop ends, with
-- the first numbered name, counted from 1, that no file has.
pub get_unique_file_name-fresh :
    (desired : String) (existing : List String)
    → ((get_unique_file_name desired existing ≡ some desired) × (has_name existing desired ≡ false))
      ⊎ ((j : ℕ) × (get_unique_file_name desired existing ≡ some (numbered desired j))
          × (has_name existing (numbered desired j) ≡ false)
          × (has_name existing desired ≡ true)
          × ((i : ℕ) → 1 ≤ i → i < j → has_name existing (numbered desired i) ≡ true))
unfolding get_unique_file_name Covers
get_unique_file_name-fresh desired existing = elim (Bool-cases (has_name existing desired)) [
  | inl t ↦
      let (j, found, new, lower) =
        next_name-fresh (suc (length existing)) desired existing 1 existing (λ j later held. held)
          (omega arith) in
      inr (j, rw t found, new, t, lower)
  | inr f ↦ inl (rw f refl, f)
]
