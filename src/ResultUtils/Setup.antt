-- ===== src/ResultUtils/Setup.antt =====
-- `classifySetupError` of resultUtils.ts. An error is its text and, where it has one, the status of
-- the agent's response as it is written into the code `NET_…`.
pub mod Classes
use gpt.Prelude.{
  Char, code, String, Bool, true, false, not, ◌&&◌, ◌||◌, Option, none, some, [], ◌∷◌, ltb, leb,
  if◌then◌else◌, get_or, or_else, and_then, lookup, ◌^^◌, is_empty, starts_with, includes,
  drop_text, trim, after_first, units, take_units, before_first,
}
use gpt.ResultUtils.Codes.{IcErrorDetail, detail, error_code_map}

pub record SetupError : Type 0 where
  pub text : String
  pub status : Option String

is_digit : Char → Bool
is_digit c = leb b'0' (code c) && leb (code c) b'9'

-- The four digits at the head of a text.
four_digits : String → Option String
unfolding is_digit
four_digits (String.◌∷◌ a (String.◌∷◌ b (String.◌∷◌ c (String.◌∷◌ d s)))) =
    if is_digit a && is_digit b && is_digit c && is_digit d
    then some (String.◌∷◌ a (String.◌∷◌ b (String.◌∷◌ c (String.◌∷◌ d ""))))
    else none
four_digits _ = none

-- `errString.match(/(IC\d{4})/)`
match_code : String → Option String
unfolding four_digits
match_code String.[] = none
match_code (String.◌∷◌ c s) =
    let rest = match_code s in
    if starts_with (String.◌∷◌ c s) "IC"
    then or_else (and_then (four_digits (drop_text 2 (String.◌∷◌ c s))) (λ d. some ("IC" ^^ d)))
        rest
    else rest

table_of : Option String → Option IcErrorDetail
table_of key = and_then key (λ k. lookup k error_code_map)

-- An empty status is falsy.
net_code : Option String → Option String
net_code status = and_then status (λ s. if is_empty s then none else some ("NET_" ^^ s))

-- The fixed classes, by the tests on the text in the order of the source.
class_of : Bool → Bool → Bool → Bool → Option IcErrorDetail
class_of no_wasm stopped no_network no_certificate =
    if no_wasm
    then lookup "IC0505" error_code_map
    else if stopped
    then lookup "IC0508" error_code_map
    else if no_network
    then some (
        detail "Network Error"
          "Could not connect to the Internet Computer. Please check your internet connection."
          false)
    else if no_certificate
    then some
        (detail "Security Error" "Failed to verify the response certificate. Potential MITM." true)
    else none

text_class : String → Option IcErrorDetail
text_class text =
    class_of (includes text "no Wasm module")
      (includes text "stopped" || includes text "Canister stopped")
      (includes text "Connection refused"
        || includes text "Network request failed"
        || includes text "Failed to fetch")
      (includes text "Fail to verify certificate")

-- The part between "Reject text:" and the next "Reject text:", `split(…)[1]`.
reject_text : String → String
reject_text text = before_first (after_first text "Reject text:") "Reject text:"

clean : String → String
unfolding reject_text
clean text =
    if includes text "Reject text:"
    then trim (before_first (reject_text text) "Error code:")
    else text

truncate : String → String
truncate text = if ltb 200 (units text) then take_units 197 text ^^ "..." else text

generic : String → IcErrorDetail
unfolding clean truncate
generic text =
    let message = truncate (clean text) in
    detail "Connection Error"
      (if is_empty message then "An unknown error occurred during setup." else message) false

pub classify_setup_error : SetupError → IcErrorDetail
classify_setup_error e =
    get_or
      (or_else (table_of (match_code e.text))
        (or_else (table_of (net_code e.status)) (text_class e.text)))
      (generic e.text)
