-- ===== src/FileStore/Tests/Folders.antt =====
-- A home folder with one folder and one text.
use gpt.Prelude.{
  ℕ, String, ◌≡◌, refl, sym, ◌⊎◌, inl, inr, true, false, Option, none, some, List, [], ◌∷◌, arith,
  ◌==◌, if◌then◌else◌, Bool-cases, Result, ok, In, here, there, lookup, remove, has, values,
}
use gpt.FileStore.State.{
  Folder, FileItem, Crumb, hydrated, FileSystemState, initial_state, Access, Call,
}
use gpt.FileStore.Read.{
  FolderResponse, folder, folder_info, fetch_folder_contents, navigate_to_folder, navigate_back,
  navigate_to_path,
}
use gpt.FileStore.Read.Navigation.{Move, into, back, jump, arrives, brought, walk, walk-IsAt}
use gpt.FileStore.Read.Places.{IsAt}
use gpt.FileStore.Read.Back.{late, navigate_back-into}
use gpt.FileStore.Read.Hydration.{
  IsListed, fetch_folder_contents-IsListed, fetch_folder_contents-stuck,
}
use gpt.FileStore.Read.Paths.{
  Met, start, awaited, Walked, begun, arrive, IsRanked, navigate_to_path-Walked,
}
use gpt.FileStore.Write.{Item, ItemType, start_loading, delete_items}
use gpt.FileStore.Write.Deleted.{Deleted, delete_items-Deleted}
use gpt.FileUtils.{is_text_mime_type}
use gpt.FileStore.Index.{
  is_text_file, Content, build_search_index_for_file, build_global_search_index,
}
use gpt.FileStore.Index.Complete.{
  IsComplete, build_global_search_index-IsComplete, build_search_index_for_file-stale,
}

abbrev work : Folder
work = record { id = "w"; name = "Work"; parent_id = some "home" }

abbrev note : FileItem
note = record {
  id = "n";
  name = "n.md";
  size = 5;
  uploaded_at = 1;
  mime_type = "text/markdown";
  parent_id = "home";
  chunks = record { chunk_index = 0; start_char = 0; end_char = 3; embedding = [] } ∷ [];
}

abbrev store : FileSystemState
store = record initial_state {
  files = ("n", note) ∷ [];
  folders = ("w", work) ∷ [];
  root_folder_id = some "home";
  current_folder_id = some "home";
  history = record { id = "home"; name = "Home" } ∷ [];
  hydration_status = hydrated;
}

abbrev session : Access
session = record { has_client = true; has_canister = true }

abbrev listing : FolderResponse
listing = record {
  files = note ∷ [];
  folders = [];
  folder_id = "w";
  folder_name = "Work";
  parent_folder_id = some "home";
}

-- Into the folder, which is fetched, back at once, and then the answer arrives; then nowhere.
abbrev moves : List Move
moves = into session "w" ∷ back ∷ arrives 0 (ok listing) ∷ jump 7 ∷ []

walk-IsAt_example :
    let s = (walk moves (record { store = store; pending = [] })).store in
    IsAt s
    ⊎ ((r : FolderResponse) × In r (brought moves) × (s.current_folder_id ≡ some r.folder_id))
walk-IsAt_example = walk-IsAt moves (record { store = store; pending = [] }) refl

work-known : lookup "w" store.folders ≡ some work
unfolding lookup
work-known = refl

-- The folder is fetched, and its answer opens it again.
navigate_back-into_example :
    let (m, fetch) = navigate_to_folder session "w" store in
    let t = navigate_back m in
    let later = late fetch listing t in
    (t.current_folder_id ≡ some "home")
    × (t.history ≡ store.history)
    × (later.current_folder_id ≡ some "w")
    × (later.history ≡ store.history)
unfolding lookup
navigate_back-into_example =
    navigate_back-into session "w" store work (record { id = "home"; name = "Home" }) [] listing
      work-known refl refl refl

abbrev answered : Call FolderResponse
answered = record { answer = ok listing; meanwhile = λ s. s }

fetch_folder_contents-IsListed_example :
    IsListed listing (fetch_folder_contents session (some "w") answered store)
fetch_folder_contents-IsListed_example =
    fetch_folder_contents-IsListed session (some "w") answered store listing refl refl refl

fetch_folder_contents-stuck_example :
    let t = fetch_folder_contents session (some "w") answered store in
    fetch_folder_contents session none answered t ≡ t
fetch_folder_contents-stuck_example =
    fetch_folder_contents-stuck session (some "w") answered store listing refl refl refl "home" refl
      (λ v. refl) session none answered refl

abbrev home_only : String → Result FolderResponse
home_only id =
    ok (record listing { folder_id = "home"; folder_name = "Home"; parent_folder_id = none })

abbrev Info : Type 0
Info = Result (String × Option String)

abbrev depth : String → ℕ
depth id = if "w" == id then 1 else 0

-- While the home folder is asked for, another action sets the status.
abbrev others : String → FileSystemState → FileSystemState
others id s = record s { error = some id }

folders_kept : (u : FileSystemState) → Met others (begun store) u → u.folders ≡ store.folders
folders_kept _ start = refl
folders_kept _ (awaited id u met) = folders_kept u met

home_only-IsRanked : IsRanked home_only others (begun store) depth
unfolding folder_info lookup
home_only-IsRanked u id name parent met e' =
    let e : folder_info home_only store.folders id ≡ ok (name, some parent) =
      rw (folders_kept u met) at e' in
    elim (Bool-cases ("w" == id)) [
      | inl t ↦
          let found : ◌≡◌ {A = Info} (ok ("Work", some "home")) (ok (name, some parent)) =
            rw (t, folder_info) at e in
          let same : "home" ≡ parent = cc in rw t (rw (sym same) (omega arith))
      | inr f ↦
          let missing : ◌≡◌ {A = Info} (ok ("Home", none)) (ok (name, some parent)) =
            rw (f, folder_info) at e in
          absurd (cc missing)
    ]

navigate_to_path-Walked_example :
    (t : FileSystemState) × (r : Result (List Crumb)) × Met others (begun store) t
    × Walked home_only others (begun store) (some "w") r
    × (navigate_to_path 2 session
          (record { answer = ok (folder "w"); meanwhile = λ s. s })
          home_only
          others
          (λ id s. s)
          store
        ≡ some (arrive (λ id s. s) "w" t r))
navigate_to_path-Walked_example =
    navigate_to_path-Walked 2 session (record { answer = ok (folder "w"); meanwhile = λ s. s })
      home_only others (λ id s. s) store (folder "w") depth refl refl refl home_only-IsRanked
      (omega arith)

abbrev doomed : Item
doomed = record { id = "n"; type = ItemType.file }

abbrev carried_out : Call (Unit {0})
carried_out = record { answer = ok tt; meanwhile = λ s. s }

delete_items-Deleted_example :
    Deleted
      (doomed ∷ [])
      (start_loading store)
      (delete_items session (doomed ∷ []) carried_out store)
delete_items-Deleted_example = delete_items-Deleted session doomed [] carried_out store refl refl

abbrev texts : String → Content
texts id = record { text = some "abc"; meanwhile = λ s. s }

keyed_store : (f : FileItem) → In f (values store.files) → lookup f.id store.files ≡ some f
unfolding lookup
keyed_store f here = refl
keyed_store f (there i) = elim i [ ]

not_indexed : has "n" store.searchable_chunks ≡ false
unfolding lookup
not_indexed = refl

note-known : lookup "n" store.files ≡ some note
unfolding lookup
note-known = refl

note-text : is_text_file note ≡ true
unfolding is_text_mime_type
note-text = refl

build_global_search_index-IsComplete_example :
    IsComplete store (build_global_search_index texts store).0
build_global_search_index-IsComplete_example =
    build_global_search_index-IsComplete texts store (λ id s. (refl, λ key h. h))
      (λ id. ("abc", refl)) refl refl keyed_store

abbrev raced : Content
raced = record { text = some "abc"; meanwhile = λ s. record s { files = remove "n" s.files } }

note-gone : has "n" (raced.meanwhile store).files ≡ false
unfolding lookup remove
note-gone = refl

build_search_index_for_file-stale_example :
    let t = (build_search_index_for_file "n" raced store).0 in
    (has "n" t.files ≡ false) × (has "n" t.searchable_chunks ≡ true)
build_search_index_for_file-stale_example =
    build_search_index_for_file-stale "n" raced store note "abc" not_indexed note-known note-text
      refl note-gone
