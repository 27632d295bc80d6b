-- ===== src/FileStore/Read.antt =====
-- store/fileStore/actions/read.ts: the listing of folders, and the way through them.
pub mod Places
pub mod Navigation
pub mod Back
pub mod Hydration
pub mod Paths
use gpt.Prelude.{
  ℕ, zero, suc, ◌+◌, ◌-◌, ◌^◌, String, Bool, true, false, not, ◌&&◌, ◌||◌, Option, none, some, List,
  [], ◌∷◌, ◌++◌, map, eqb, ltb, if◌then◌else◌, is_some, get_or, and_then, Result, ok, err, length,
  get_elem?, take, Dict, lookup, insert, has, ◌^^◌, given,
}
use gpt.FileStore.State.{
  Folder, FileItem, FolderContents, Crumb, StoreStatus, HydrationStatus, hydrating, hydrated,
  FileSystemState, Access, is_ready, Call,
}

-- What `UserApi.getFolderContent` answers.
pub record FolderResponse : Type 0 where
  pub files : List FileItem
  pub folders : List Folder
  pub folder_id : String
  pub folder_name : String
  pub parent_folder_id : Option String

insert_files : List FileItem → Dict FileItem → Dict FileItem
insert_files [] m = m
insert_files (f ∷ fs) m = insert_files fs (insert f.id f m)

insert_folders : List Folder → Dict Folder → Dict Folder
insert_folders [] m = m
insert_folders (f ∷ fs) m = insert_folders fs (insert f.id f m)

abbrev pub crumb_of : FolderResponse → Crumb
crumb_of r = record { id = r.folder_id; name = r.folder_name }

abbrev pub is_hydrating : HydrationStatus → Bool
is_hydrating hydrating = true
is_hydrating _ = false

-- What runs at once; the flag says whether the canister is called.
unfoldable pub begin_fetch : Access → FileSystemState → FileSystemState × Bool
begin_fetch access s =
    if is_ready access
    then (if is_hydrating s.hydration_status then (s, false) else (
      record s { status = StoreStatus.loading; error = none; hydration_status = hydrating },
      true,
    ))
    else (record s { status = StoreStatus.error; error = some "Authentication required." }, false)

-- The update of the store by an answer.
pub store_response : Bool → FolderResponse → FileSystemState → FileSystemState
unfolding insert_files insert_folders
store_response is_initial r s =
    let parent = given r.parent_folder_id in
    let this : Folder = record { id = r.folder_id; name = r.folder_name; parent_id = parent } in
    record s {
      files = insert_files r.files s.files;
      folders = insert r.folder_id this (insert_folders r.folders s.folders);
      folder_contents =
          insert r.folder_id
            (record {
              folders = map (λ (f : Folder). f.id) r.folders;
              files = map (λ (f : FileItem). f.id) r.files;
            })
            s.folder_contents;
      status = StoreStatus.idle;
      root_folder_id =
          if is_initial && not (is_some parent) then some r.folder_id else s.root_folder_id;
      current_folder_id = some r.folder_id;
      history = if is_initial || eqb (length s.history) 0 then crumb_of r ∷ [] else s.history;
    }

-- What runs after the answer. `is_initial` was read before the call.
pub end_fetch : Bool → Option String → Result FolderResponse → FileSystemState → FileSystemState
unfolding store_response
end_fetch is_initial folder_id (ok r) s =
    let stored = store_response is_initial r s in
    if is_initial then record stored { hydration_status = hydrated } else stored
end_fetch is_initial folder_id (err message) s = record s {
  hydration_status = HydrationStatus.idle;
  error =
      some ("Failed to fetch content for folder " ^^ get_or folder_id "Home" ^^ ": " ^^ message);
  status = StoreStatus.error;
}

pub fetch_folder_contents :
    Access → Option String → Call FolderResponse → FileSystemState → FileSystemState
unfolding begin_fetch end_fetch
fetch_folder_contents access folder_id listing s =
    let (begun, called) = begin_fetch access s in
    if called
    then end_fetch (not (is_some s.root_folder_id)) folder_id listing.answer
        (listing.meanwhile begun)
    else begun

-- A call of `fetchFolderContents` that nobody waits for and that has asked the canister.
pub record Fetch : Type 0 where
  pub is_initial : Bool
  pub folder_id : String

-- What runs when its answer arrives, in the store of that time.
unfoldable pub finish_fetch : Fetch → Result FolderResponse → FileSystemState → FileSystemState
unfolding end_fetch
finish_fetch f answer s = end_fetch f.is_initial (some f.folder_id) answer s

-- What runs at once, and the fetch of the folder that it leaves under way.
unfoldable pub navigate_to_folder :
    Access → String → FileSystemState → FileSystemState × Option Fetch
unfolding begin_fetch
navigate_to_folder access folder_id s = elim (lookup folder_id s.folders) [
  | none ↦ (s, none)
  | some folder ↦
      let moved = record s {
        current_folder_id = some folder_id;
        history = s.history ++ record { id = folder_id; name = folder.name } ∷ [];
      } in
      let (begun, called) = begin_fetch access moved in
      let fetch : Fetch = record {
        is_initial = not (is_some s.root_folder_id);
        folder_id = folder_id;
      } in
      if has folder_id s.folder_contents
      then (moved, none)
      else (begun, if called then some fetch else none)
]

pub navigate_to_history_index : ℕ → FileSystemState → FileSystemState
navigate_to_history_index index s = elim (get_elem? s.history index) [
  | none ↦ s
  | some target ↦ record s {
    current_folder_id = some target.id;
    history = take (suc index) s.history;
  }
]

pub navigate_back : FileSystemState → FileSystemState
unfolding navigate_to_history_index
navigate_back s =
    if ltb 1 (length s.history) then navigate_to_history_index (length s.history - 2) s else s

-- The answer of the canister as text and type; a throw is caught.
pub get_file_content {ℓ} : {A : Type ℓ} → Access → Result A → Option A
get_file_content access (ok content) = if is_ready access then some content else none
get_file_content access (err message) = none

-- What `UserApi.getItemByPath` answers, as the folder that the path leads to.
pub data PathItem : Type 0 where
  file : (parent_id : String) → PathItem
  folder : (id : String) → PathItem

abbrev pub target_of : PathItem → String
target_of (file parent_id) = parent_id
target_of (folder id) = id

-- The name and the parent of a folder: from the store, or where it has no name there, from the
-- canister.
unfoldable pub folder_info :
    (String → Result FolderResponse) → Dict Folder → String → Result (String × Option String)
folder_info ask folders id =
    elim (and_then {B = String × Option String} (lookup id folders) (λ f.
      and_then {B = String × Option String} (given (some f.name)) (λ n. some (n, f.parent_id)))) [
        | some found ↦ ok found
        | none ↦ elim (ask id) [
          | ok r ↦ ok (r.folder_name, given r.parent_folder_id)
          | err message ↦ err message
        ]
      ]

-- A folder with a name in the store is not asked for; else the store is what the others make of it
-- until the canister has answered.
abbrev pub has_folder_name : Dict Folder → String → Bool
has_folder_name folders id = is_some (given (and_then (lookup id folders) (λ f. some f.name)))

abbrev pub after_info :
    (String → FileSystemState → FileSystemState) → String → FileSystemState → FileSystemState
after_info meanwhile id s = if has_folder_name s.folders id then s else meanwhile id s

-- The walk up to the root, on fuel; `none` if it does not end within it. Each step reads the folders
-- anew. `meanwhile` is what other actions do while the canister is asked for a folder.
pub walk_up :
    ℕ
    → (String → Result FolderResponse)
    → (String → FileSystemState → FileSystemState)
    → FileSystemState
    → Option String
    → List Crumb
    → Option (FileSystemState × Result (List Crumb))
unfolding folder_info
walk_up fuel ask meanwhile s none path = some (s, ok path)
walk_up zero ask meanwhile s (some id) path = none
walk_up (suc fuel) ask meanwhile s (some id) path = elim (folder_info ask s.folders id) [
  | err message ↦ some (after_info meanwhile id s, err message)
  | ok (name, parent) ↦
      walk_up fuel ask meanwhile (after_info meanwhile id s) parent
        (record { id = id; name = name } ∷ path)
]

abbrev pub is_loading : StoreStatus → Bool
is_loading StoreStatus.loading = true
is_loading _ = false

abbrev pub path_failed : String → FileSystemState → FileSystemState
path_failed message s = record s {
  error = some ("Failed to navigate to path: " ^^ message);
  status = StoreStatus.error;
}

-- `refetch` is the fetch of the folder at the end.
pub navigate_to_path :
    ℕ
    → Access
    → Call PathItem
    → (String → Result FolderResponse)
    → (String → FileSystemState → FileSystemState)
    → (Option String → FileSystemState → FileSystemState)
    → FileSystemState
    → Option FileSystemState
unfolding walk_up
navigate_to_path fuel access item ask meanwhile refetch s =
    if is_ready access
    then (if is_loading s.status
        then some s
        else (let s1 = item.meanwhile (record s { status = StoreStatus.loading; error = none }) in
            elim item.answer [
              | err message ↦ some (refetch none (path_failed message s1))
              | ok i ↦ elim (walk_up fuel ask meanwhile s1 (some (target_of i)) []) [
                | none ↦ none
                | some (s2, err message) ↦ some (refetch none (path_failed message s2))
                | some (s2, ok path) ↦
                    some (refetch (some (target_of i)) (record s2 { history = path }))
              ]
            ]))
    else some (record s { status = StoreStatus.error; error = some "Authentication required." })
