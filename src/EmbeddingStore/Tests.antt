-- ===== src/EmbeddingStore/Tests.antt =====
-- The theorem on chunks at a text of three units.
use gpt.Prelude.{ℕ, ◌≡◌, some, List, [], ◌∷◌, arith, ok, length}
use gpt.EmbeddingStore.{EmbedResult, embed_file_content}
use gpt.EmbeddingStore.Tiles.{joined, Tiles, embed_file_content-Tiles}

abbrev content : List ℕ
content = 72 ∷ 105 ∷ 33 ∷ []

embed_file_content-Tiles_example :
    (cs : List EmbedResult) × (embed_file_content content ≡ some (ok cs))
    × (joined cs ≡ content)
    × Tiles 0 0 (length content) cs
embed_file_content-Tiles_example = embed_file_content-Tiles content (omega arith) (omega arith)
