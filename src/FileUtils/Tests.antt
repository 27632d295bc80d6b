-- ===== src/FileUtils/Tests.antt =====
-- The names of files at a folder that holds two of them.
use gpt.Prelude.{
  String, ◌≡◌, refl, ◌⊎◌, true, false, ℕ, ◌≤◌, ◌<◌, show, drop_text, some, List, [], ◌∷◌,
}
use gpt.FileUtils.{is_text_mime_type, has_name, numbered, get_unique_file_name}
use gpt.FileUtils.Fresh.{get_unique_file_name-fresh}

abbrev folder : List String
folder = "a.md" ∷ "a (1).md" ∷ []

third_copy : get_unique_file_name "a.md" folder ≡ some "a (2).md"
unfolding get_unique_file_name show drop_text
third_copy = refl

hidden_file : get_unique_file_name ".env" (".env" ∷ []) ≡ some ".env (1)"
unfolding get_unique_file_name show drop_text
hidden_file = refl

get_unique_file_name-fresh_example :
    ((get_unique_file_name "a.md" folder ≡ some "a.md") × (has_name folder "a.md" ≡ false))
    ⊎ ((j : ℕ) × (get_unique_file_name "a.md" folder ≡ some (numbered "a.md" j))
        × (has_name folder (numbered "a.md" j) ≡ false)
        × (has_name folder "a.md" ≡ true)
        × ((i : ℕ) → 1 ≤ i → i < j → has_name folder (numbered "a.md" i) ≡ true))
get_unique_file_name-fresh_example = get_unique_file_name-fresh "a.md" folder

is_text_mime_type_runs :
    (is_text_mime_type "" "notes.MD" ≡ true)
    × (is_text_mime_type "image/png" "a.b.png" ≡ false)
    × (is_text_mime_type "text/x-log" "log" ≡ true)
    × (is_text_mime_type "" ".md" ≡ false)
unfolding is_text_mime_type drop_text
is_text_mime_type_runs = (refl, refl, refl, refl)
