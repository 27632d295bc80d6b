-- ===== src/Prelude/Texts.antt =====
-- Texts: the tests and cuts of the language that the program uses.
use Prim.Native.Nat.{ℕ, zero, suc, ◌+◌, ◌-◌, ◌≤◌}
use native.Mathlib.Omega.{arith}
use Prim.Native.Char.{Char, code}
use Prim.Native.String.{String, ◌++◌ as append, count}
use mathlib.Core.Bool.{Bool, ◌||◌, ◌&&◌}
use text.Mathlib.Text.{starts_with as has_prefix}
use gpt.Prelude.Tests.{◌==◌, eqb, leb, if◌then◌else◌, Bool-cases, leb→le}
use mathlib.Core.Logic.{inl, inr}
use mathlib.Core.Option.{Option, none, some}

infixr 66 ◌^^◌
abbrev pub ◌^^◌ : String → String → String
s ^^ t = append s t

-- `!s`
abbrev pub is_empty : String → Bool
is_empty s = s == ""

-- A text that is there and not empty, the truthy case.
abbrev pub given : Option String → Option String
given none = none
given (some s) = if is_empty s then none else some s

-- `s.startsWith(t)`
abbrev pub starts_with : String → String → Bool
starts_with s t = has_prefix s t

-- `s.includes(t)`
unfoldable pub includes : String → String → Bool
includes String.[] t = starts_with "" t
includes (String.◌∷◌ c s) t = starts_with (String.◌∷◌ c s) t || includes s t

-- The characters of `s` from position `n` on.
unfoldable pub drop_text : ℕ → String → String
drop_text zero s = s
drop_text (suc n) String.[] = ""
drop_text (suc n) (String.◌∷◌ c s) = drop_text n s

-- `s.replace(t, u)`: the first occurrence only.
unfoldable pub replace_first : String → String → String → String
unfolding drop_text
replace_first String.[] t u = if starts_with "" t then u else ""
replace_first (String.◌∷◌ c s) t u =
    let rest = String.◌∷◌ c (replace_first s t u) in
    if starts_with (String.◌∷◌ c s) t then u ^^ drop_text (count t) (String.◌∷◌ c s) else rest

-- `s.replace(/^t/, "")`
unfoldable pub strip_prefix : String → String → String
unfolding drop_text
strip_prefix t s = if starts_with s t then drop_text (count t) s else s

-- The language's white space and line ends.
unfoldable pub is_space : ℕ → Bool
is_space c =
    (leb 9 c && leb c 13)
    || eqb c 32
    || eqb c 160
    || eqb c 5760
    || (leb 8192 c && leb c 8202)
    || eqb c 8232
    || eqb c 8233
    || eqb c 8239
    || eqb c 8287
    || eqb c 12288
    || eqb c 65279

unfoldable pub trim_start : String → String
unfolding is_space
trim_start String.[] = ""
trim_start (String.◌∷◌ c s) =
    let rest = trim_start s in if is_space (code c) then rest else String.◌∷◌ c s

unfoldable pub trim_end : String → String
unfolding is_space
trim_end String.[] = ""
trim_end (String.◌∷◌ c s) =
    let rest = trim_end s in if rest == "" && is_space (code c) then "" else String.◌∷◌ c rest

-- `s.trim()`
unfoldable pub trim : String → String
unfolding trim_start trim_end
trim s = trim_end (trim_start s)

-- `s.endsWith(t)`
unfoldable pub ends_with : String → String → Bool
ends_with String.[] t = t == ""
ends_with (String.◌∷◌ c s) t = String.◌∷◌ c s == t || ends_with s t

-- `s.substring(s.indexOf(t) + t.length)`, where `s` includes `t`.
unfoldable pub after_first : String → String → String
unfolding drop_text
after_first String.[] t = ""
after_first (String.◌∷◌ c s) t =
    let rest = after_first s t in
    if starts_with (String.◌∷◌ c s) t then drop_text (count t) (String.◌∷◌ c s) else rest

-- A character past the basic plane is two units.
char_units : Char → ℕ
char_units c = if leb 65536 (code c) then 2 else 1

-- `s.length`
unfoldable pub units : String → ℕ
unfolding char_units
units String.[] = 0
units (String.◌∷◌ c s) = char_units c + units s

-- `s.substring(0, n)`; a pair of units that `n` would cut is left out.
unfoldable pub take_units : ℕ → String → String
unfolding char_units
take_units n String.[] = ""
take_units n (String.◌∷◌ c s) =
    let rest = String.◌∷◌ c (take_units (n - char_units c) s) in
    if leb (char_units c) n then rest else ""

-- The text before the first occurrence of `t`, all of it if there is none.
unfoldable pub before_first : String → String → String
before_first String.[] t = ""
before_first (String.◌∷◌ c s) t =
    let rest = String.◌∷◌ c (before_first s t) in
    if starts_with (String.◌∷◌ c s) t then "" else rest

pub units-take_units : (n : ℕ) (s : String) → units (take_units n s) ≤ n
unfolding units take_units
units-take_units n String.[] = omega arith
units-take_units n (String.◌∷◌ c s) = elim (Bool-cases (leb (char_units c) n)) [
  | inl t ↦ rw t (omega (arith, units-take_units (n - char_units c) s, leb→le (char_units c) n t))
  | inr f ↦ rw f (omega arith)
]

-- What follows the first `n` units; a pair of units that `n` would cut is left out.
unfoldable pub drop_units : ℕ → String → String
unfolding char_units
drop_units n String.[] = ""
drop_units n (String.◌∷◌ c s) =
    let rest = drop_units (n - char_units c) s in if eqb n 0 then String.◌∷◌ c s else rest

-- `s.substring(a, b)`, which takes the smaller of its bounds first.
unfoldable pub substring : String → ℕ → ℕ → String
unfolding drop_units take_units
substring s a b = if leb a b then drop_units a (take_units b s) else drop_units b (take_units a s)
