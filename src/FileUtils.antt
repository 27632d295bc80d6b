-- ===== src/FileUtils.antt =====
-- utils/fileUtils.ts: a name that no file of the folder has yet, and which files are texts.
pub mod Fresh
mod Tests
use gpt.Prelude.{
  ℕ, zero, suc, ◌+◌, String, Bool, Option, none, some, List, [], ◌∷◌, ◌==◌, eqb, ltb, leb, not,
  ◌&&◌, ◌||◌, false, starts_with, is_empty, if◌then◌else◌, code, length, any, ◌^^◌, drop_text, show,
}

-- `new Set(names).has(name)`
abbrev pub has_name : List String → String → Bool
has_name names name = any (λ n. n == name) names

-- `s.lastIndexOf(".")`, with none for -1.
last_dot : String → Option ℕ
last_dot String.[] = none
last_dot (String.◌∷◌ c s) = elim (last_dot s) [
  | some i ↦ some (suc i)
  | none ↦ if eqb (code c) 46 then some 0 else none
]

-- The first `n` characters of `s`.
take_text : ℕ → String → String
take_text zero s = ""
take_text (suc n) String.[] = ""
take_text (suc n) (String.◌∷◌ c s) = String.◌∷◌ c (take_text n s)

unfoldable pub base_name : String → String
unfolding last_dot take_text
base_name desired = elim (last_dot desired) [
  | none ↦ desired
  | some i ↦ if ltb 0 i then take_text i desired else desired
]

unfoldable pub extension : String → String
unfolding last_dot
extension desired = elim (last_dot desired) [
  | none ↦ ""
  | some i ↦ if ltb 0 i then drop_text i desired else ""
]

unfoldable pub numbered : String → ℕ → String
unfolding base_name extension
numbered desired counter =
    base_name desired ^^ (" (" ^^ (show counter ^^ (")" ^^ extension desired)))

-- The loop, on fuel, from `counter` on.
unfoldable pub next_name : ℕ → String → List String → ℕ → Option String
unfolding numbered
next_name zero desired existing counter = none
next_name (suc fuel) desired existing counter =
    let rest = next_name fuel desired existing (suc counter) in
    if has_name existing (numbered desired counter) then rest else some (numbered desired counter)

unfoldable pub get_unique_file_name : String → List String → Option String
unfolding next_name
get_unique_file_name desired existing =
    if has_name existing desired
    then next_name (suc (length existing)) desired existing 1
    else some desired

-- The code of a lower-cased letter: the ASCII letters and the Kelvin sign, which becomes k. Any other
-- letter has no ASCII lower case, so no extension of the tables has it.
lower_code : ℕ → ℕ
lower_code c = if leb 65 c && leb c 90 then c + 32 else if eqb c 8490 then 107 else c

-- `s.toLowerCase() === t`, for a text `t` of ASCII letters in lower case.
is_lower_case_of : String → String → Bool
unfolding lower_code
is_lower_case_of String.[] t = t == ""
is_lower_case_of (String.◌∷◌ c s) String.[] = false
is_lower_case_of (String.◌∷◌ c s) (String.◌∷◌ d t) =
    eqb (lower_code (code c)) (code d) && is_lower_case_of s t

-- Before lower-casing. A name whose only dot is its first character has none: `(-1 >>> 0) + 2` is
-- past the end.
unfoldable pub get_file_extension : String → String
unfolding last_dot
get_file_extension file_name = elim (last_dot file_name) [
  | none ↦ ""
  | some i ↦ if ltb 0 i then drop_text (i + 1) file_name else ""
]

abbrev text_based_application_mime_types : List String
text_based_application_mime_types =
    "application/json" ∷ "application/javascript" ∷ "application/typescript" ∷ "application/xml"
    ∷ "application/toml" ∷ "application/yaml" ∷ "application/x-rust-crate" ∷ "application/x-sh"
    ∷ "application/x-shellscript" ∷ "application/x-python-code" ∷ "application/x-yaml" ∷ []

abbrev text_based_extensions : List String
text_based_extensions =
    "txt" ∷ "md" ∷ "markdown" ∷ "csv" ∷ "json" ∷ "xml" ∷ "toml" ∷ "yaml" ∷ "yml" ∷ "html" ∷ "css"
    ∷ "js" ∷ "ts" ∷ "jsx" ∷ "tsx" ∷ "rs" ∷ "py" ∷ "java" ∷ "sh" ∷ "bash" ∷ []

unfoldable pub is_text_mime_type : String → String → Bool
unfolding get_file_extension is_lower_case_of
is_text_mime_type mime_type file_name =
    (not (is_empty mime_type)
      && (starts_with mime_type "text/" || has_name text_based_application_mime_types mime_type))
    || (not (is_empty file_name)
        && any (is_lower_case_of (get_file_extension file_name)) text_based_extensions)
