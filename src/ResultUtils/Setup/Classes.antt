-- ===== src/ResultUtils/Setup/Classes.antt =====
-- Which class an error is given, and how long its message is.
use text.Mathlib.TextLemmas.{cons-append, nil-append}
use gpt.Prelude.{
  leb→le, le→leb, ◌+◌, ◌≤◌, String, ◌≡◌, refl, inl, inr, Bool, true, false, not, ◌&&◌, Option, none,
  some, [], ◌∷◌, arith, ◌==◌, ltb, leb, Bool-cases, Option-cases, and-eq-true, get_or, or_else,
  Dict, lookup, ◌^^◌, is_empty, units, take_units, units-take_units,
}
use gpt.ResultUtils.Codes.{IcErrorDetail, detail, error_code_map}
use gpt.ResultUtils.Setup.{
  SetupError, match_code, table_of, net_code, class_of, text_class, truncate, clean, generic,
  classify_setup_error,
}

units-append : (s t : String) → units (s ^^ t) ≡ units s + units t
unfolding units
units-append String.[] t = rw nil-append (omega arith)
units-append (String.◌∷◌ c s) t = rw cons-append (omega (arith, units-append s t))

truncate-le : (text : String) → units (truncate text) ≤ 200
unfolding truncate units
truncate-le text = elim (Bool-cases (ltb 200 (units text))) [
  | inl long ↦
      rw (long, units-append (take_units 197 text) "...")
        (omega (arith, units-take_units 197 text, dots))
  | inr short ↦ rw short (ground arith)
]
  where
    dots : units "..." ≡ 3
    dots = refl

abbrev pub fits : IcErrorDetail → Bool
fits d = not (is_empty d.message) && leb (units d.message) 200

abbrev all_fit : Dict IcErrorDetail → Bool
all_fit [] = true
all_fit ((k, d) ∷ m) = fits d && all_fit m

lookup-fits :
    (k : String) (m : Dict IcErrorDetail) (d : IcErrorDetail)
    → all_fit m ≡ true
    → lookup k m ≡ some d
    → fits d ≡ true
unfolding lookup
lookup-fits k [] d h e = cc
lookup-fits k ((j, c) ∷ m) d h e =
    let (now, later) = and-eq-true (fits c) (all_fit m) h in
    elim (Bool-cases (j == k)) [
      | inl t ↦ let q : some c ≡ some d = rw t at e in let p : c ≡ d = cc q in rw (← p) now
      | inr f ↦ lookup-fits k m d later (rw f at e)
    ]

table-fits : all_fit error_code_map ≡ true
unfolding error_code_map units
table-fits = refl

-- The text classes are entries of the table or fixed texts.
abbrev OptFits : Option IcErrorDetail → Type 0
OptFits none = Unit {0}
OptFits (some d) = fits d ≡ true

lookup-OptFits : (k : String) → OptFits (lookup k error_code_map)
lookup-OptFits k = elim (Option-cases (lookup k error_code_map)) [
  | inl e ↦ rw e tt
  | inr (d, e) ↦ rw e (lookup-fits k error_code_map d table-fits e)
]

table_of-OptFits : (key : Option String) → OptFits (table_of key)
unfolding table_of
table_of-OptFits none = tt
table_of-OptFits (some k) = lookup-OptFits k

class_of-OptFits : (a b c d : Bool) → OptFits (class_of a b c d)
unfolding class_of units
class_of-OptFits true b c d = lookup-OptFits "IC0505"
class_of-OptFits false true c d = lookup-OptFits "IC0508"
class_of-OptFits false false true d = refl
class_of-OptFits false false false true = refl
class_of-OptFits false false false false = tt

text_class-OptFits : (text : String) → OptFits (text_class text)
unfolding text_class
text_class-OptFits text = class_of-OptFits _ _ _ _

or_else-OptFits : (o p : Option IcErrorDetail) → OptFits o → OptFits p → OptFits (or_else o p)
or_else-OptFits none p h k = k
or_else-OptFits (some d) p h k = h

fixed_fits : fits (detail "Connection Error" "An unknown error occurred during setup." false) ≡ true
unfolding units
fixed_fits = refl

generic-fits : (text : String) → fits (generic text) ≡ true
unfolding generic
generic-fits text = elim (Bool-cases (is_empty (truncate (clean text)))) [
  | inl t ↦ rw t fixed_fits
  | inr f ↦ rw (f, f) (le→leb (units (truncate (clean text))) 200 (truncate-le (clean text)))
]

get_or-fits :
    (o : Option IcErrorDetail) (d : IcErrorDetail)
    → OptFits o
    → fits d ≡ true
    → fits (get_or o d) ≡ true
get_or-fits none d h k = k
get_or-fits (some c) d h k = h

-- Whatever the error, the user is shown a message that is not empty and has at most 200 units.
pub classify_setup_error_bounds :
    (e : SetupError)
    → (is_empty (classify_setup_error e).message ≡ false)
      × (units (classify_setup_error e).message ≤ 200)
unfolding classify_setup_error
classify_setup_error_bounds e =
    let rest = or_else (table_of (net_code e.status)) (text_class e.text) in
    let all = or_else (table_of (match_code e.text)) rest in
    let found =
      or_else-OptFits (table_of (match_code e.text)) rest (table_of-OptFits (match_code e.text)) (
        or_else-OptFits (table_of (net_code e.status)) (text_class e.text)
          (table_of-OptFits (net_code e.status)) (text_class-OptFits e.text)) in
    let d = classify_setup_error e in
    let (full, short) =
      and-eq-true (not (is_empty d.message)) (leb (units d.message) 200)
        (get_or-fits all (generic e.text) found (generic-fits e.text)) in
    (ground arith, leb→le (units d.message) 200 short)
