-- ===== src/Prelude/Dicts.antt =====
-- `Map` and objects with text keys: an association list in insertion order. A write to a key that is
-- there keeps its place, as in the language.
use Prim.Native.String.{String}
use mathlib.Core.Path.{◌≡◌, refl, ◌∙◌}
use mathlib.Core.Bool.{Bool, true, false}
use mathlib.Core.Option.{Option, none, some}
use mathlib.Core.List.{List, [], ◌∷◌}
use native.Mathlib.Omega.{arith}
use text.Mathlib.TextEquality.{eq_iff}
use text.Mathlib.TextPositions.{eq_refl}
use mathlib.Core.Logic.{inl, inr}
use gpt.Prelude.Tests.{◌==◌, if◌then◌else◌, is_some, Bool-cases}

abbrev pub Dict {ℓ} : Type ℓ → Type ℓ
Dict V = List (String × V)

module _ {ℓ} {V : Type ℓ} where
  -- `m.get(k)`, `m[k]`
  unfoldable pub lookup : String → Dict V → Option V
  lookup key [] = none
  lookup key ((name, value) ∷ others) = if name == key then some value else lookup key others

  -- `m.set(k, v)`, `{ ...m, [k]: v }`
  unfoldable pub insert : String → V → Dict V → Dict V
  insert key new [] = (key, new) ∷ []
  insert key new ((name, value) ∷ others) =
      if name == key then (name, new) ∷ others else (name, value) ∷ insert key new others

  -- `m.delete(k)`, `delete m[k]`
  unfoldable pub remove : String → Dict V → Dict V
  remove key [] = []
  remove key ((name, value) ∷ others) =
      let rest = remove key others in if name == key then rest else (name, value) ∷ rest

  -- `m.has(k)`
  abbrev pub has : String → Dict V → Bool
  has key m = is_some (lookup key m)

  -- `m.values()`
  abbrev pub values : Dict V → List V
  values [] = []
  values ((name, value) ∷ others) = value ∷ values others

  -- A read after a write, and a read after a deletion, at any two keys.
  pub lookup-insert :
      (key wanted : String) (new : V) (m : Dict V)
      → lookup wanted (insert key new m) ≡ (if key == wanted then some new else lookup wanted m)
  unfolding lookup insert
  lookup-insert key wanted new [] = refl
  lookup-insert key wanted new ((name, value) ∷ others) =
      let later = lookup-insert key wanted new others in
      ground (arith, later, eq_iff name key, eq_iff name wanted, eq_iff key wanted)

  pub lookup-remove :
      (key wanted : String) (m : Dict V)
      → lookup wanted (remove key m) ≡ (if key == wanted then none else lookup wanted m)
  unfolding lookup remove
  lookup-remove key wanted [] = ground arith
  lookup-remove key wanted ((name, value) ∷ others) =
      let later = lookup-remove key wanted others in
      ground (arith, later, eq_iff name key, eq_iff name wanted, eq_iff key wanted)

  pub lookup-insert_ne :
      (key wanted : String) (new : V) (m : Dict V)
      → (key == wanted) ≡ false
      → lookup wanted (insert key new m) ≡ lookup wanted m
  lookup-insert_ne key wanted new m h = rw lookup-insert (rw h refl)

  pub lookup-insert_self :
      (key : String) (new : V) (m : Dict V) → lookup key (insert key new m) ≡ some new
  lookup-insert_self key new m = lookup-insert key key new m ∙ rw (eq_refl key) refl

  pub has-insert :
      (wanted key : String) (new : V) (m : Dict V)
      → has wanted m ≡ true
      → has wanted (insert key new m) ≡ true
  has-insert wanted key new m h =
      rw (lookup-insert key wanted new m)
        (elim (Bool-cases (key == wanted)) [ inl t ↦ rw t refl | inr f ↦ rw f h ])

-- `{ ...m, ...n }`
unfoldable pub merge {ℓ} : {V : Type ℓ} → Dict V → Dict V → Dict V
merge m [] = m
merge m ((name, value) ∷ others) = merge (insert name value m) others
