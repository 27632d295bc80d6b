-- ===== src/Prelude/Tests.antt =====
-- Boolean tests, the conditional, and the language's `??`, `||` and `try`.
use Prim.Native.Nat.{ℕ, ◌≤◌, ◌<◌, compare, Ordering}
use Prim.Native.String.{String}
use mathlib.Core.Path.{◌≡◌, refl, ap}
use text.Mathlib.TextEquality.{eq_iff}
use mathlib.Core.Logic.{◌↔◌, ◌⊎◌, inl, inr}
use mathlib.Core.Bool.{Bool, true, false, ◌&&◌}
use mathlib.Core.Option.{Option, none, some}
use native.Mathlib.Omega.{arith}
use text.Mathlib.Text.{◌==◌ as str_eq}

-- `===` of two texts.
infix 50 ◌==◌
abbrev pub ◌==◌ : String → String → Bool
s == t = str_eq s t

-- `===`, `<` and `<=` of two numbers.
abbrev pub eqb : ℕ → ℕ → Bool
eqb a b = elim (compare a b) [ Ordering.eq ↦ true | _ ↦ false ]

abbrev pub ltb : ℕ → ℕ → Bool
ltb a b = elim (compare a b) [ Ordering.lt ↦ true | _ ↦ false ]

abbrev pub leb : ℕ → ℕ → Bool
leb a b = elim (compare a b) [ Ordering.gt ↦ false | _ ↦ true ]

infix 1 if◌then◌else◌
abbrev pub if◌then◌else◌ {ℓ} : {A : Type ℓ} → Bool → A → A → A
if true then x else y = x
if false then x else y = y

pub eqb_iff : (a b : ℕ) → (eqb a b ≡ true) ↔ (a ≡ b)
eqb_iff a b = ground arith

pub eqb_refl : (a : ℕ) → eqb a a ≡ true
eqb_refl a = ground arith

pub ltb→lt : (a b : ℕ) → ltb a b ≡ true → a < b
ltb→lt a b h = ground arith

pub leb→le : (a b : ℕ) → leb a b ≡ true → a ≤ b
leb→le a b h = ground arith

pub le→leb : (a b : ℕ) → a ≤ b → leb a b ≡ true
le→leb a b h = ground arith

-- To split on a computed value and keep the equation.
pub Bool-cases : (b : Bool) → (b ≡ true) ⊎ (b ≡ false)
Bool-cases true = inl refl
Bool-cases false = inr refl

pub Option-cases {ℓ} : {A : Type ℓ} (o : Option A) → (o ≡ none) ⊎ ((a : A) × (o ≡ some a))
Option-cases none = inl refl
Option-cases (some a) = inr (a, refl)

pub and-eq-true : (a b : Bool) → (a && b) ≡ true → (a ≡ true) × (b ≡ true)
and-eq-true a b h = ground arith

abbrev pub is_some {ℓ} : {A : Type ℓ} → Option A → Bool
is_some none = false
is_some (some a) = true

-- `o ?? d`
abbrev pub get_or {ℓ} : {A : Type ℓ} → Option A → A → A
get_or none d = d
get_or (some a) d = a

-- `o ?? p`, where `p` may be missing too.
abbrev pub or_else {ℓ} : {A : Type ℓ} → Option A → Option A → Option A
or_else none p = p
or_else (some a) p = some a

-- `o?.f`, where the field may be missing.
abbrev pub and_then {ℓ κ} : {A : Type ℓ} {B : Type κ} → Option A → (A → Option B) → Option B
and_then none f = none
and_then (some a) f = f a

-- `o === s`, false on a missing value.
abbrev pub is_text : Option String → String → Bool
is_text none s = false
is_text (some t) s = t == s

pub is_text-some : (o : Option String) (s : String) → is_text o s ≡ true → o ≡ some s
is_text-some none s h = cc
is_text-some (some t) s h = ap some ((eq_iff t s).0 h)

-- A missing flag is falsy.
abbrev pub truthy : Option Bool → Bool
truthy none = false
truthy (some b) = b

-- The outcome of a call that may throw.
pub data Result {ℓ} (A : Type ℓ) : Type ℓ where
  ok : A → Result A
  err : String → Result A

-- A step that may throw, and the steps after it.
infixl 5 ◌>>=◌ ◌>>◌
abbrev pub ◌>>=◌ {ℓ κ} : {A : Type ℓ} {B : Type κ} → Result A → (A → Result B) → Result B
ok a >>= f = f a
err message >>= f = err message

-- What follows for a sequence that ends well follows from its first step and the rest.
pub >>=-ends {ℓ κ ν} :
    {A : Type ℓ} {B : Type κ} {P : Type ν} (step : Result A) (f : A → Result B) {b : B}
    → (step >>= f) ≡ ok b
    → ((a : A) → step ≡ ok a → f a ≡ ok b → P)
    → P
>>=-ends (ok a) f h rest = rest a refl h
>>=-ends (err message) f h rest = cc

-- A step that gives a value with which the rest holds, and a step that ends the sequence with the
-- message, or gives a value with which the rest does.
module _ {A : Type 0} (step : Result A) where
  abbrev pub Gives : (A → Type 0) → Type 0
  Gives Rest = (a : A) × (step ≡ ok a) × Rest a

  abbrev pub Fails : String → (A → Type 0) → Type 0
  Fails message Rest = (step ≡ err message) ⊎ Gives Rest

module _ {A B : Type 0} {Rest : A → Type 0} (f : A → Result B) where
  pub gives :
      (step : Result A) {b : B}
      → (step >>= f) ≡ ok b
      → ((a : A) → f a ≡ ok b → Rest a)
      → Gives step Rest
  gives step e rest = >>=-ends step f e (λ a given e'. (a, given, rest a e'))

  pub fails :
      (step : Result A) {message : String}
      → (step >>= f) ≡ err message
      → ((a : A) → f a ≡ err message → Rest a)
      → Fails step message Rest
  fails (ok a) e rest = inr (a, refl, rest a e)
  fails (err other) {message} e rest = let same : other ≡ message = cc in inl (ap err same)

abbrev pub ◌>>◌ {ℓ} : {B : Type ℓ} → Result (Unit {0}) → Result B → Result B
step >> later = step >>= λ _. later

-- `if (!test) throw new Error(message)`, for a test and for a value that may be missing.
abbrev pub ensure : Bool → String → Result (Unit {0})
ensure true message = ok tt
ensure false message = err message

abbrev pub need {ℓ} : {A : Type ℓ} → Option A → String → Result A
need (some a) message = ok a
need none message = err message

pub Result-cases {ℓ} :
    {A : Type ℓ} (r : Result A) → ((a : A) × (r ≡ ok a)) ⊎ ((message : String) × (r ≡ err message))
Result-cases (ok a) = inl (a, refl)
Result-cases (err message) = inr (message, refl)
