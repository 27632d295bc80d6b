-- ===== src/Prelude/Numerals.antt =====
-- `String(n)` for a natural number: its decimal digits.
use Prim.Native.Nat.{ℕ, zero, suc, ◌+◌, ◌/◌, ◌%◌, ◌<◌}
use Prim.Native.String.{String, count}
use mathlib.Core.Path.{◌≡◌, refl, sym, ap, ◌∙◌}
use mathlib.Core.Logic.{inl, inr}
use native.Mathlib.Omega.{arith}
use text.Mathlib.TextLemmas.{length-append, append_inj}
use gpt.Prelude.Tests.{◌==◌, ltb, if◌then◌else◌, Bool-cases, ltb→lt}
use gpt.Prelude.Texts.{◌^^◌}

digit : ℕ → String
digit zero = "0"
digit (suc zero) = "1"
digit (suc (suc zero)) = "2"
digit (suc (suc (suc zero))) = "3"
digit (suc (suc (suc (suc zero)))) = "4"
digit (suc (suc (suc (suc (suc zero))))) = "5"
digit (suc (suc (suc (suc (suc (suc zero)))))) = "6"
digit (suc (suc (suc (suc (suc (suc (suc zero))))))) = "7"
digit (suc (suc (suc (suc (suc (suc (suc (suc zero)))))))) = "8"
digit _ = "9"

-- On fuel: a number larger than the rounds left is not met.
show_rounds : ℕ → ℕ → String
unfolding digit
show_rounds zero n = ""
show_rounds (suc rounds) n =
    let rest = show_rounds rounds (n / 10) in if ltb n 10 then digit n else rest ^^ digit (n % 10)

unfoldable pub show : ℕ → String
unfolding show_rounds
show n = show_rounds (suc n) n

digit_value : String → ℕ
digit_value s =
    if s == "0"
    then 0
    else if s == "1"
    then 1
    else if s == "2"
    then 2
    else if s == "3"
    then 3
    else if s == "4"
    then 4
    else if s == "5"
    then 5
    else if s == "6"
    then 6
    else if s == "7"
    then 7
    else if s == "8"
    then 8
    else 9

digit_value-digit : (d : ℕ) → d < 10 → digit_value (digit d) ≡ d
unfolding digit digit_value
digit_value-digit zero h = refl
digit_value-digit (suc zero) h = refl
digit_value-digit (suc (suc zero)) h = refl
digit_value-digit (suc (suc (suc zero))) h = refl
digit_value-digit (suc (suc (suc (suc zero)))) h = refl
digit_value-digit (suc (suc (suc (suc (suc zero))))) h = refl
digit_value-digit (suc (suc (suc (suc (suc (suc zero)))))) h = refl
digit_value-digit (suc (suc (suc (suc (suc (suc (suc zero))))))) h = refl
digit_value-digit (suc (suc (suc (suc (suc (suc (suc (suc zero)))))))) h = refl
digit_value-digit (suc (suc (suc (suc (suc (suc (suc (suc (suc zero))))))))) h = refl
digit_value-digit (suc (suc (suc (suc (suc (suc (suc (suc (suc (suc d)))))))))) h = omega (arith, h)

digit_injective : (d e : ℕ) → d < 10 → e < 10 → digit d ≡ digit e → d ≡ e
digit_injective d e hd he same =
    sym (digit_value-digit d hd) ∙ ap digit_value same ∙ digit_value-digit e he

digit-count : (d : ℕ) → count (digit d) ≡ 1
unfolding digit
digit-count zero = refl
digit-count (suc zero) = refl
digit-count (suc (suc zero)) = refl
digit-count (suc (suc (suc zero))) = refl
digit-count (suc (suc (suc (suc zero)))) = refl
digit-count (suc (suc (suc (suc (suc zero))))) = refl
digit-count (suc (suc (suc (suc (suc (suc zero)))))) = refl
digit-count (suc (suc (suc (suc (suc (suc (suc zero))))))) = refl
digit-count (suc (suc (suc (suc (suc (suc (suc (suc zero)))))))) = refl
digit-count (suc (suc (suc (suc (suc (suc (suc (suc (suc d))))))))) = refl

rounds-count : (rounds n : ℕ) → n < rounds → 0 < count (show_rounds rounds n)
unfolding show_rounds
rounds-count zero n h = omega (arith, h)
rounds-count (suc rounds) n h = elim (Bool-cases (ltb n 10)) [
  | inl t ↦ rw t (rw digit-count (omega arith))
  | inr f ↦ rw f (rw length-append (rw digit-count (omega arith)))
]

short_long : (n : ℕ) (front : String) (d : ℕ) → 0 < count front → digit n ≡ front ^^ digit d → ⊥
short_long n front d some_ same =
    let c : count (digit n) ≡ count front + count (digit d) =
      ap count same ∙ length-append front (digit d) in
    omega (arith, c, digit-count n, digit-count d, some_)

split_last : (s t : String) (d e : ℕ) → s ^^ digit d ≡ t ^^ digit e → (s ≡ t) × (digit d ≡ digit e)
split_last s t d e same =
    let c : count s + count (digit d) ≡ count t + count (digit e) =
      sym (length-append s (digit d)) ∙ ap count same ∙ length-append t (digit e) in
    append_inj same (omega (arith, c, digit-count d, digit-count e))

rounds_injective : (p q n m : ℕ) → n < p → m < q → show_rounds p n ≡ show_rounds q m → n ≡ m
unfolding show_rounds
rounds_injective zero q n m hn hm same = omega (arith, hn)
rounds_injective (suc p) zero n m hn hm same = omega (arith, hm)
rounds_injective (suc p) (suc q) n m hn hm same = elim (Bool-cases (ltb n 10)) [
  | inl s ↦ elim (Bool-cases (ltb m 10)) [
    | inl t ↦ digit_injective n m (ltb→lt n 10 s) (ltb→lt m 10 t) (rw (s, t) at same)
    | inr t ↦ absurd (
        short_long n (show_rounds q (m / 10)) (m % 10)
          (rounds-count q (m / 10) (ground (arith, t, hm))) (rw (s, t) at same))
  ]
  | inr s ↦ elim (Bool-cases (ltb m 10)) [
    | inl t ↦ absurd (
        short_long m (show_rounds p (n / 10)) (n % 10)
          (rounds-count p (n / 10) (ground (arith, s, hn))) (sym (rw (s, t) at same)))
    | inr t ↦
        let (front, last) =
          split_last (show_rounds p (n / 10)) (show_rounds q (m / 10)) (n % 10) (m % 10)
            (rw (s, t) at same) in
        let tens =
          rounds_injective p q (n / 10) (m / 10) (ground (arith, s, hn)) (ground (arith, t, hm))
            front in
        let ones = digit_injective (n % 10) (m % 10) (omega arith) (omega arith) last in
        omega (arith, tens, ones)
  ]
]

pub show_injective : (n m : ℕ) → show n ≡ show m → n ≡ m
unfolding show
show_injective n m = rounds_injective (suc n) (suc m) n m (omega arith) (omega arith)
