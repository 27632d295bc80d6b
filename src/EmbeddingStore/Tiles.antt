-- ===== src/EmbeddingStore/Tiles.antt =====
-- The chunks of a file tile its text.
use gpt.Prelude.{
  ℕ, zero, suc, ◌+◌, ◌-◌, ◌≤◌, ◌<◌, ◌≡◌, refl, sym, ap, ◌∙◌, inl, inr, true, false, some, List, [],
  ◌∷◌, ◌++◌, append-nil, arith, eqb, ltb, leb, Bool-cases, ok, length, drop, take-append-drop,
  List-cases,
}
use gpt.EmbeddingStore.{
  chunk_size, max_content, EmbedResult, substring, end_of_chunk, make_chunk, next_start,
  create_chunks, embed_file_content,
}

abbrev pub joined : List EmbedResult → List ℕ
joined [] = []
joined (c ∷ cs) = c.text ++ joined cs

-- The chunks are numbered from `index`, the first begins at `start`, each begins where the one before
-- it ended, none is empty or longer than the chunk size, and the last ends at `end`.
abbrev pub Tiles : ℕ → ℕ → ℕ → List EmbedResult → Type 0
Tiles index start end [] = start ≡ end
Tiles index start end (c ∷ cs) =
    (c.chunk.chunk_index ≡ index)
    × (c.chunk.start_char ≡ start)
    × (start < c.chunk.end_char)
    × (c.chunk.end_char ≤ start + chunk_size)
    × Tiles (suc index) (c.chunk.end_char) end cs

drop-drop : (a b c : ℕ) (xs : List ℕ) → b + a ≡ c → drop a (drop b xs) ≡ drop c xs
drop-drop a zero c xs e = let same : a ≡ c = omega arith in rw same refl
drop-drop a (suc b) zero xs e = absurd (omega arith)
drop-drop zero (suc b) (suc c) [] e = refl
drop-drop (suc a) (suc b) (suc c) [] e = refl
drop-drop a (suc b) (suc c) (x ∷ xs) e = drop-drop a b c xs (omega arith)

drop_all : (n : ℕ) (xs : List ℕ) → length xs ≤ n → drop n xs ≡ []
drop_all zero [] h = refl
drop_all zero (x ∷ xs) h = absurd (omega arith)
drop_all (suc n) [] h = refl
drop_all (suc n) (x ∷ xs) h = drop_all n xs (omega arith)

substring-drop : (xs : List ℕ) (s e : ℕ) → s ≤ e → substring xs s e ++ drop e xs ≡ drop s xs
substring-drop xs s e h =
    ap (λ (ys : List ℕ). substring xs s e ++ ys) (sym (drop-drop (e - s) s e xs (omega arith)))
    ∙ take-append-drop (e - s) (drop s xs)

create_chunks-step :
    (content : List ℕ) (fuel start index : ℕ) (cs : List EmbedResult)
    → ltb start (length content) ≡ true
    → leb (length content) (next_start (end_of_chunk content start)) ≡ false
    → create_chunks content fuel (next_start (end_of_chunk content start)) (suc index) ≡ some cs
    → create_chunks content (suc fuel) start index
      ≡ some (make_chunk content index start (end_of_chunk content start) ∷ cs)
unfolding create_chunks
create_chunks-step content fuel start index cs inside more made = rw (inside, more) (rw made refl)

-- From a start inside the text the loop ends within a round for each unit that is left, with chunks
-- that tile the rest.
create_chunks-Tiles :
    (content : List ℕ) (fuel start index : ℕ)
    → start < length content
    → length content - start ≤ fuel
    → (cs : List EmbedResult) × (create_chunks content fuel start index ≡ some cs)
      × (joined cs ≡ drop start content)
      × Tiles index start (length content) cs
unfolding create_chunks make_chunk
create_chunks-Tiles content zero start index h f = absurd (omega arith)
create_chunks-Tiles content (suc fuel) start index h f =
    let end = end_of_chunk content start in
    let inside : ltb start (length content) ≡ true = ground arith in
    let same : next_start end ≡ end = omega arith in
    elim (Bool-cases (leb (length content) (next_start end))) [
      | inl t ↦
          let last : end ≡ length content = ground (arith, t) in
          (
            make_chunk content index start end ∷ [],
            rw (inside, t) refl,
            append-nil _
                ∙ sym (append-nil _)
                ∙ ap (λ (ys : List ℕ). substring content start end ++ ys)
                    (sym (drop_all end content (omega (arith, last))))
                ∙ substring-drop content start end (omega arith),
            (refl, refl, omega arith, omega arith, last),
          )
      | inr l ↦
          let more : end < length content = ground (arith, l) in
          let (cs, made, joins, tiles) =
            create_chunks-Tiles content fuel end (suc index) more (omega arith) in
          (
            make_chunk content index start end ∷ cs,
            create_chunks-step content fuel start index cs inside l
                (ap (λ n. create_chunks content fuel n (suc index)) same ∙ made),
            ap (λ (ys : List ℕ). substring content start end ++ ys) joins
                ∙ substring-drop content start end (omega arith),
            (refl, refl, omega arith, omega arith, tiles),
          )
    ]

embed-made :
    (content : List ℕ) (cs : List EmbedResult) (c : EmbedResult) (ds : List EmbedResult)
    → eqb (length content) 0 ≡ false
    → ltb max_content (length content) ≡ false
    → create_chunks content (length content) 0 0 ≡ some cs
    → cs ≡ c ∷ ds
    → embed_file_content content ≡ some (ok cs)
unfolding embed_file_content
embed-made content cs c ds nonempty short made e = rw (nonempty, short) (rw made (rw e refl))

-- A text that is not empty and not longer than 10 MB is cut into chunks that tile it: joined they are
-- the text, each begins exactly where the one before it ended, so no two overlap, and none is empty or
-- longer than 8000 units.
pub embed_file_content-Tiles :
    (content : List ℕ)
    → 0 < length content
    → length content ≤ max_content
    → (cs : List EmbedResult) × (embed_file_content content ≡ some (ok cs))
      × (joined cs ≡ content)
      × Tiles 0 0 (length content) cs
unfolding embed_file_content
embed_file_content-Tiles content h m =
    let nonempty : eqb (length content) 0 ≡ false = ground arith in
    let short : ltb max_content (length content) ≡ false = ground arith in
    let (cs, made, joins, tiles) =
      create_chunks-Tiles content (length content) 0 0 h (omega arith) in
    elim (List-cases cs) [
      | inl e ↦
          let nil : [] ≡ content = sym (ap joined e) ∙ joins in
          absurd (omega (arith, ap (λ (xs : List ℕ). length xs) nil))
      | inr (c, ds, e) ↦ (cs, embed-made content cs c ds nonempty short made e, joins, tiles)
    ]
