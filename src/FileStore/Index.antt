-- ===== src/FileStore/Index.antt =====
-- store/fileStore/index.ts: the index of the texts that are searched. The embeddings are numbers that
-- are only compared with 0.
pub mod Complete
use gpt.Prelude.{
  ℕ, ◌+◌, ◌-◌, ◌^◌, String, Bool, true, false, not, ◌&&◌, Option, none, some, List, [], ◌∷◌, map,
  eqb, if◌then◌else◌, is_some, or_else, length, filter, any, lookup, insert, has, values, ◌^^◌,
  show, substring,
}
use gpt.Types.{TextChunk, IndexingStatus, in_progress, complete, error}
use gpt.FileUtils.{is_text_mime_type}
use gpt.FileStore.State.{FileItem, SearchableChunk, HydrationStatus, hydrated, FileSystemState}

has_numbers : TextChunk → Bool
has_numbers c = any (λ v. not (eqb v 0)) c.embedding

pub file_has_valid_embeddings : FileItem → Bool
unfolding has_numbers
file_has_valid_embeddings file = any has_numbers file.chunks

pub has_valid_embeddings : String → FileSystemState → Bool
unfolding file_has_valid_embeddings
has_valid_embeddings file_id s = elim (lookup file_id s.files) [
  | none ↦ false
  | some file ↦ file_has_valid_embeddings file
]

-- What the fetch of a file's content comes to: its decoded text, if there is one, and what other
-- actions do to the store meanwhile.
pub record Content : Type 0 where
  pub text : Option String
  pub meanwhile : FileSystemState → FileSystemState

enrich : FileItem → String → TextChunk → SearchableChunk
enrich file text c = record {
  chunk = c;
  id = file.id ^^ "-" ^^ show c.chunk_index;
  file_id = file.id;
  text = substring text c.start_char c.end_char;
}

abbrev pub is_text_file : FileItem → Bool
is_text_file f = is_text_mime_type f.mime_type f.name

-- The result says whether it throws.
pub build_search_index_for_file :
    String → Content → FileSystemState → FileSystemState × Option String
unfolding enrich
build_search_index_for_file file_id content s =
    if has file_id s.searchable_chunks then (s, none) else elim (lookup file_id s.files) [
      | none ↦ (s, none)
      | some file ↦
          if is_text_file file
          then elim content.text [
            | none ↦ (content.meanwhile s, some ("Could not fetch content for file " ^^ file_id))
            | some text ↦
                let later = content.meanwhile s in
                (
                  record later {
                    searchable_chunks =
                        insert file_id (map (enrich file text) file.chunks) later.searchable_chunks;
                  },
                  none,
                )
          ]
          else (s, none)
    ]

abbrev pub concurrent_batch_size : ℕ
concurrent_batch_size = 5

abbrev pub with_progress : ℕ → ℕ → FileItem → FileSystemState → FileSystemState
with_progress processed total file s = record s {
  indexing_progress =
      some (record { processed = processed; total = total; current_file = file.name });
}

-- The loop over the batches: `left` is what is left of the batch, and `failure` the first error in it.
-- A batch is built to its end, and the next one begins only if none of its files failed. The files are
-- different ones, so the order of the answers within a batch does not matter.
pub index_all :
    (String → Content)
    → ℕ
    → ℕ
    → ℕ
    → Option String
    → List FileItem
    → FileSystemState
    → FileSystemState × Option String
index_all ask i total left failure [] s = (s, failure)
index_all ask i total left failure (file ∷ files) s =
    let (s1, e) =
      build_search_index_for_file file.id (ask file.id) (with_progress i total file s) in
    let rest =
      index_all ask (i + 1) total (if eqb left 0 then concurrent_batch_size - 1 else left - 1)
        (or_else failure e) files s1 in
    if eqb left 0 && is_some failure then (s, failure) else rest

pub files_to_index : FileSystemState → List FileItem
files_to_index s =
    filter (λ f. is_text_file f && not (has f.id s.searchable_chunks)) (values s.files)

abbrev pub is_in_progress : IndexingStatus → Bool
is_in_progress in_progress = true
is_in_progress _ = false

abbrev pub is_hydrated : HydrationStatus → Bool
is_hydrated hydrated = true
is_hydrated _ = false

-- What is set before the loop, and the files that it goes through.
pub start_build : FileSystemState → FileSystemState
unfolding files_to_index file_has_valid_embeddings
start_build s = record s {
  indexing_status = in_progress;
  is_index_stale = false;
  indexing_error = none;
  files_needing_embeddings =
      map (λ (f : FileItem). f.id)
        (filter (λ f. not (file_has_valid_embeddings f)) (files_to_index s));
}

-- `catch` and `finally`; the flag says whether another build is scheduled.
pub end_build : FileSystemState × Option String → FileSystemState × Bool
end_build (s, none) =
    (record s { indexing_status = complete; indexing_progress = none }, s.is_index_stale)
end_build (s, some message) = (
  record s { indexing_error = some message; indexing_status = error; indexing_progress = none },
  false,
)

-- The progress that is set before the first batch is overwritten by that batch.
pub build_global_search_index : (String → Content) → FileSystemState → FileSystemState × Bool
unfolding start_build end_build index_all files_to_index
build_global_search_index ask s =
    if is_hydrated s.hydration_status && not (is_in_progress s.indexing_status)
    then (let files = files_to_index s in
        end_build (index_all ask 0 (length files) 0 none files (start_build s)))
    else (s, false)
