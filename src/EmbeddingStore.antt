-- ===== src/EmbeddingStore.antt =====
-- gpt_frontend/src/store/embeddingStore.ts, embedFileContent: a file's text is cut into chunks. A text
-- is the list of its UTF-16 units, as `substring` and `length` count them.
pub mod Tiles
mod Tests
use gpt.Prelude.{
  ℕ, zero, suc, ◌+◌, ◌-◌, ◌*◌, max, min, Option, none, some, List, [], ◌∷◌, eqb, ltb, leb,
  if◌then◌else◌, and_then, Result, ok, err, length, take, drop,
}
use gpt.Types.{TextChunk}

abbrev pub chunk_size : ℕ
chunk_size = 8000

abbrev pub chunk_overlap : ℕ
chunk_overlap = 500

abbrev pub max_content : ℕ
max_content = 10 * 1024 * 1024

-- `TextChunk & { text: string }`
pub record EmbedResult : Type 0 where
  pub chunk : TextChunk
  pub text : List ℕ

-- `s.substring(start, end)`, for `start <= end`.
abbrev pub substring : List ℕ → ℕ → ℕ → List ℕ
substring s start end = take (end - start) (drop start s)

abbrev pub end_of_chunk : List ℕ → ℕ → ℕ
end_of_chunk content start = min (start + chunk_size) (length content)

pub make_chunk : List ℕ → ℕ → ℕ → ℕ → EmbedResult
make_chunk content index start end = record {
  chunk = record { chunk_index = index; start_char = start; end_char = end; embedding = [] };
  text = substring content start end;
}

-- A negative `nextStart` is never the larger one, so it may be 0 here.
abbrev pub next_start : ℕ → ℕ
next_start end = max end (end - chunk_overlap)

-- The `while` loop, for at most `fuel` rounds; `none` if it would go on.
pub create_chunks : List ℕ → ℕ → ℕ → ℕ → Option (List EmbedResult)
create_chunks content zero start index = if ltb start (length content) then none else some []
create_chunks content (suc fuel) start index =
    let end = end_of_chunk content start in
    let rest = create_chunks content fuel (next_start end) (suc index) in
    if ltb start (length content)
    then if leb (length content) (next_start end)
      then some (make_chunk content index start end ∷ [])
      else and_then rest (λ cs. some (make_chunk content index start end ∷ cs))
    else some []

-- Each round but the last takes a whole chunk, so a round for each unit is enough.
pub embed_file_content : List ℕ → Option (Result (List EmbedResult))
embed_file_content content =
    if eqb (length content) 0
    then some (err "File content is empty")
    else if ltb max_content (length content)
    then some (err "File content exceeds 10MB limit")
    else and_then (create_chunks content (length content) 0 0) (λ chunks. elim chunks [
      | [] ↦ some (ok (make_chunk content 0 0 (length content) ∷ []))
      | c ∷ cs ↦ some (ok (c ∷ cs))
    ])
