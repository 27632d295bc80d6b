-- ===== src/FileStore/Index/Complete.antt =====
-- A build of the index reaches every text of the store, or ends with an error.
use gpt.Prelude.{
  has-insert, ℕ, ◌+◌, ◌-◌, String, ◌≡◌, refl, ap, ◌∙◌, inl, inr, Bool, true, false, not, ◌&&◌,
  Option, none, some, List, [], ◌∷◌, arith, eqb, if◌then◌else◌, Bool-cases, and-eq-true, is_some,
  or_else, is_text, In, here, there, length, In-cons, filter-In, In-filter, lookup, has, values,
  lookup-insert_self,
}
use gpt.Types.{complete}
use gpt.FileStore.State.{FileItem, FileSystemState}
use gpt.FileStore.Index.{
  Content, build_search_index_for_file, is_text_file, with_progress, index_all, files_to_index,
  is_hydrated, is_in_progress, start_build, end_build, build_global_search_index,
}

-- Meanwhile, no file comes or goes, and nothing leaves the index.
abbrev pub IsQuiet : (String → Content) → Type 0
IsQuiet ask =
    (id : String) (s : FileSystemState)
    → (((ask id).meanwhile s).files ≡ s.files)
      × ((key : String)
          → has key s.searchable_chunks ≡ true
          → has key ((ask id).meanwhile s).searchable_chunks ≡ true)

abbrev pub Answers : (String → Content) → Type 0
Answers ask = (id : String) → (text : String) × ((ask id).text ≡ some text)

-- What a step keeps.
abbrev Grows : FileSystemState → FileSystemState → Type 0
Grows s t =
    (t.files ≡ s.files)
    × ((key : String) → has key s.searchable_chunks ≡ true → has key t.searchable_chunks ≡ true)

module _ (ask : String → Content) (quiet : IsQuiet ask) (answers : Answers ask) where
  build-indexes :
      (file : FileItem) (s : FileSystemState)
      → lookup file.id s.files ≡ some file
      → is_text_file file ≡ true
      → let (t, e) = build_search_index_for_file file.id (ask file.id) s in
        (e ≡ none) × Grows s t × (has file.id t.searchable_chunks ≡ true)
  unfolding build_search_index_for_file
  build-indexes file s found is_text = elim (Bool-cases (has file.id s.searchable_chunks)) [
    | inl t ↦ rw t (refl, (refl, λ key h. h), t)
    | inr f ↦
        let (text, given_) = answers file.id in
        let (files, chunks) = quiet file.id s in
        rw (f, found, is_text, given_)
          (
            refl,
            (files, λ key h. has-insert key file.id _ _ (chunks key h)),
            rw (lookup-insert_self file.id _ ((ask file.id).meanwhile s).searchable_chunks) refl,
          )
  ]

  index_all-indexes :
      (i total left : ℕ) (failure : Option String) (files : List FileItem) (s : FileSystemState)
      → failure ≡ none
      → ((f : FileItem) → In f files → (lookup f.id s.files ≡ some f) × (is_text_file f ≡ true))
      → let (t, e) = index_all ask i total left failure files s in
        (e ≡ none) × Grows s t × ((f : FileItem) → In f files → has f.id t.searchable_chunks ≡ true)
  unfolding index_all
  index_all-indexes i total left failure [] s fine listed =
      (fine, (refl, λ key h. h), λ f i. elim i [ ])
  index_all-indexes i total left failure (file ∷ files) s fine listed =
      let v = with_progress i total file s in
      let (found, is_text) = listed file here in
      let (none_, (same, kept), added) = build-indexes file v found is_text in
      let built = build_search_index_for_file file.id (ask file.id) v in
      let fine' : or_else failure built.1 ≡ none = rw fine none_ in
      let go_on : (eqb left 0 && is_some failure) ≡ false = rw fine (ground arith) in
      let (e, (same', kept'), all) =
        index_all-indexes (i + 1) total (if eqb left 0 then 4 else left - 1)
          (or_else failure built.1) files built.0 fine'
          (λ f i. (rw same (listed f (there i)).0, (listed f (there i)).1)) in
      rw go_on (
        e,
        (same' ∙ same, λ key h. kept' key (kept key h)),
        λ f i. elim (In-cons i) [
          | inl first ↦ rw (ap (λ (g : FileItem). g.id) first) (kept' file.id added)
          | inr later ↦ all f later
        ],
      )

end_build-complete :
    (p : FileSystemState × Option String)
    → p.1 ≡ none
    → (end_build p).0 ≡ record (p.0) { indexing_status = complete; indexing_progress = none }
unfolding end_build
end_build-complete (t, none) e = refl
end_build-complete (t, some message) e = cc

build-started :
    (ask : String → Content) (s : FileSystemState)
    → is_hydrated s.hydration_status ≡ true
    → is_in_progress s.indexing_status ≡ false
    → build_global_search_index ask s
      ≡ end_build
          (index_all ask 0 (length (files_to_index s)) 0 none (files_to_index s) (start_build s))
unfolding build_global_search_index
build-started ask s ready free = rw (ready, free) refl

-- Every text of the files of `s` is in the index of `t`, which has lost nothing.
abbrev pub IsComplete : FileSystemState → FileSystemState → Type 0
IsComplete s t =
    (t.indexing_status ≡ complete)
    × (t.indexing_progress ≡ none)
    × (t.files ≡ s.files)
    × ((key : String) → has key s.searchable_chunks ≡ true → has key t.searchable_chunks ≡ true)
    × ((f : FileItem)
        → In f (values s.files)
        → is_text_file f ≡ true
        → has f.id t.searchable_chunks ≡ true)

-- With the store hydrated and no build under way, files that stand under their ids, a content for every
-- file, and nothing that takes files or chunks away meanwhile: the build ends as complete, has every
-- text of the store in the index, and has lost nothing that was there.
pub build_global_search_index-IsComplete :
    (ask : String → Content) (s : FileSystemState)
    → IsQuiet ask
    → Answers ask
    → is_hydrated s.hydration_status ≡ true
    → is_in_progress s.indexing_status ≡ false
    → ((f : FileItem) → In f (values s.files) → lookup f.id s.files ≡ some f)
    → IsComplete s (build_global_search_index ask s).0
unfolding files_to_index start_build
build_global_search_index-IsComplete ask s quiet answers ready free keyed =
    let wanted = λ (f : FileItem). is_text_file f && not (has f.id s.searchable_chunks) in
    let files = files_to_index s in
    let begun = start_build s in
    let (e, (same, kept), all) =
      index_all-indexes ask quiet answers 0 (length files) 0 none files begun refl (λ f i.
        let (listed, w) = filter-In wanted (values s.files) i in
        (keyed f listed, (and-eq-true (is_text_file f) _ w).0)) in
    let p = index_all ask 0 (length files) 0 none files begun in
    let final : (build_global_search_index ask s).0
        ≡ record (p.0) { indexing_status = complete; indexing_progress = none } =
      ap (λ (q : FileSystemState × Bool). q.0) (build-started ask s ready free)
      ∙ end_build-complete p e in
    rw final (
      refl,
      refl,
      same,
      kept,
      λ f i is_text. elim (Bool-cases (has f.id s.searchable_chunks)) [
        | inl t ↦ kept f.id t
        | inr n ↦ all f (In-filter wanted i (rw (is_text, n) refl))
      ],
    )

-- A file whose text is fetched while the file is deleted comes into the index all the same.
pub build_search_index_for_file-stale :
    (id : String) (content : Content) (s : FileSystemState) (file : FileItem) (text : String)
    → has id s.searchable_chunks ≡ false
    → lookup id s.files ≡ some file
    → is_text_file file ≡ true
    → content.text ≡ some text
    → has id (content.meanwhile s).files ≡ false
    → let t = (build_search_index_for_file id content s).0 in
      (has id t.files ≡ false) × (has id t.searchable_chunks ≡ true)
unfolding build_search_index_for_file
build_search_index_for_file-stale id content s file text new found is_text answered gone =
    rw (new, found, is_text, answered)
      (gone, rw (lookup-insert_self id _ (content.meanwhile s).searchable_chunks) refl)
