-- ===== src/FileStore/Write.antt =====
-- store/fileStore/actions/write.ts: the changes of files and folders. Each action is guarded by the
-- session, awaits the canister, changes the store, and starts to fetch the folder again; what that
-- fetch does when it is answered comes later.
pub mod Deleted
use gpt.Prelude.{
  ℕ, ◌+◌, ◌^◌, String, Bool, true, false, not, ◌&&◌, Option, none, some, List, [], ◌∷◌, ◌++◌, ◌==◌,
  if◌then◌else◌, is_some, get_or, and_then, Result, ok, err, filter, any, Dict, lookup, insert,
  remove, has, ◌^^◌,
}
use gpt.Types.{TextChunk}
use gpt.FileUtils.{is_text_mime_type}
use gpt.FileStore.State.{
  Folder, FileItem, FolderContents, SearchableChunk, StoreStatus, FileSystemState, Access, is_ready,
  Call,
}
use gpt.FileStore.Read.{begin_fetch}

pub data ItemType : Type 0 where
  file folder : ItemType

pub record Item : Type 0 where
  pub id : String
  pub type : ItemType

abbrev pub start_loading : FileSystemState → FileSystemState
start_loading s = record s { status = StoreStatus.loading; error = none }

abbrev fail : String → FileSystemState → FileSystemState
fail message s = record s { error = some message; status = StoreStatus.error }

-- `void get().fetchFolderContents(…)`
pub refetch : Access → FileSystemState → FileSystemState
refetch access s = (begin_fetch access s).0

includes_id : List String → String → Bool
includes_id ids id = any (λ i. i == id) ids

abbrev empty_contents : FolderContents
empty_contents = record { folders = []; files = [] }

add_folder : Folder → String → FileSystemState → FileSystemState
unfolding includes_id
add_folder new parent_id s =
    let content = get_or (lookup parent_id s.folder_contents) empty_contents in
    record s {
      folders = insert new.id new s.folders;
      folder_contents =
          if includes_id content.folders new.id
          then s.folder_contents
          else insert parent_id (record content { folders = content.folders ++ new.id ∷ [] })
              s.folder_contents;
      status = StoreStatus.idle;
    }

-- The canister answers the new id.
pub create_folder : Access → String → String → Call String → FileSystemState → FileSystemState
unfolding add_folder refetch
create_folder access name parent_id created s =
    if is_ready access
    then (let waited = created.meanwhile (start_loading s) in
        elim created.answer [
          | ok id ↦ refetch access (
              add_folder (record { id = id; name = name; parent_id = some parent_id }) parent_id
                waited)
          | err message ↦ fail ("Failed to create folder: " ^^ message) waited
        ])
    else s

pub record Upload : Type 0 where
  pub name : String
  pub size : ℕ
  pub type : String
  pub chunks : Option (List TextChunk)
  -- The id that the canister gives the file, or its refusal.
  pub answer : Result String

-- `Promise.all`: the items, or a refusal.
uploaded_items : ℕ → String → List Upload → Result (List FileItem)
uploaded_items now parent_id [] = ok []
uploaded_items now parent_id (u ∷ us) = elim u.answer [
  | err message ↦ err message
  | ok id ↦ elim (uploaded_items now parent_id us) [
    | err message ↦ err message
    | ok items ↦
        let item : FileItem = record {
          id = id;
          name = u.name;
          size = u.size;
          uploaded_at = now;
          mime_type = u.type;
          parent_id = parent_id;
          chunks = get_or u.chunks [];
        } in
        ok (item ∷ items)
  ]
]

add_items : List FileItem → Dict FileItem × List String → Dict FileItem × List String
unfolding includes_id
add_items [] (files, ids) = (files, ids)
add_items (item ∷ items) (files, ids) =
    add_items items
      (insert item.id item files, if includes_id ids item.id then ids else ids ++ item.id ∷ [])

store_items : String → List FileItem → FileSystemState → FileSystemState
unfolding add_items
store_items parent_id items s =
    let content = get_or (lookup parent_id s.folder_contents) empty_contents in
    let (files, ids) = add_items items (s.files, content.files) in
    record s {
      files = files;
      folder_contents = insert parent_id (record content { files = ids }) s.folder_contents;
    }

-- An error is thrown on to the caller.
pub upload_files :
    ℕ
    → Access
    → List Upload
    → (meanwhile : FileSystemState → FileSystemState) → String
    → FileSystemState
    → FileSystemState × Result (Unit {0})
unfolding uploaded_items store_items
upload_files now access uploads meanwhile parent_id s =
    if is_ready access
    then elim (uploaded_items now parent_id uploads) [
      | err message ↦ (meanwhile s, err message)
      | ok items ↦
          let stored = store_items parent_id items (meanwhile s) in
          (
            if any (λ u. is_text_mime_type u.type u.name) uploads
                then record stored { is_index_stale = true }
                else stored,
            ok tt,
          )
    ]
    else (s, ok tt)

pub parent_of : Item → FileSystemState → Option String
parent_of item s = elim item.type [
  | file ↦ and_then (lookup item.id s.files) (λ f. some f.parent_id)
  | folder ↦ and_then (lookup item.id s.folders) (λ f. f.parent_id)
]

rename_in_store : Item → String → FileSystemState → FileSystemState
rename_in_store item name s = elim item.type [
  | file ↦ elim (lookup item.id s.files) [
    | none ↦ record s { status = StoreStatus.idle }
    | some f ↦ record s {
      status = StoreStatus.idle;
      files = insert item.id (record f { name = name }) s.files;
      searchable_chunks = remove item.id s.searchable_chunks;
      is_index_stale = true;
    }
  ]
  | folder ↦ elim (lookup item.id s.folders) [
    | none ↦ record s { status = StoreStatus.idle }
    | some f ↦ record s {
      status = StoreStatus.idle;
      folders = insert item.id (record f { name = name }) s.folders;
    }
  ]
]

pub rename_item : Access → Item → String → Call (Unit {0}) → FileSystemState → FileSystemState
unfolding parent_of rename_in_store refetch
rename_item access item name renamed s =
    if is_ready access
    then elim (parent_of item s) [
      | none ↦ s
      | some parent_id ↦
          let waited = renamed.meanwhile (start_loading s) in
          elim renamed.answer [
            | ok _ ↦ refetch access (rename_in_store item name waited)
            | err message ↦ fail ("Failed to rename item: " ^^ message) waited
          ]
    ]
    else s

-- The loop over the items.
pub record Remaining : Type 0 where
  pub files : Dict FileItem
  pub folders : Dict Folder
  pub chunks : Dict (List SearchableChunk)
  pub index_changed : Bool

delete_one : ItemType → String → Remaining → Remaining
delete_one file id r =
    let left = record r { files = remove id r.files } in
    if has id r.chunks
    then record left { chunks = remove id r.chunks; index_changed = true }
    else left
delete_one folder id r = record r { folders = remove id r.folders }

delete_all : List Item → Remaining → Remaining
unfolding delete_one
delete_all [] r = r
delete_all (item ∷ items) r = delete_all items (delete_one item.type item.id r)

abbrev pub is_file : ItemType → Bool
is_file file = true
is_file folder = false

-- An item of the list is a file, or a folder, of this id.
abbrev pub deletes_file : List Item → String → Bool
deletes_file items id = any (λ i. is_file i.type && i.id == id) items

abbrev pub deletes_folder : List Item → String → Bool
deletes_folder items id = any (λ i. not (is_file i.type) && i.id == id) items

pub delete_in_store : List Item → Option String → FileSystemState → FileSystemState
unfolding delete_all
delete_in_store items parent s =
    let left = delete_all items (record {
      files = s.files;
      folders = s.folders;
      chunks = s.searchable_chunks;
      index_changed = false;
    }) in
    record s {
      files = left.files;
      folders = left.folders;
      status = StoreStatus.idle;
      searchable_chunks = if left.index_changed then left.chunks else s.searchable_chunks;
      is_index_stale = if left.index_changed then true else s.is_index_stale;
      folder_contents = elim parent [
        | none ↦ s.folder_contents
        | some parent_id ↦ elim (lookup parent_id s.folder_contents) [
          | none ↦ s.folder_contents
          | some content ↦
              insert parent_id
                (record {
                  folders = filter (λ id. not (deletes_folder items id)) content.folders;
                  files = filter (λ id. not (deletes_file items id)) content.files;
                })
                s.folder_contents
        ]
      ];
    }

-- The canister deletes all items, or refuses one of them.
pub delete_items : Access → List Item → Call (Unit {0}) → FileSystemState → FileSystemState
unfolding delete_in_store parent_of refetch
delete_items access [] deleted s = s
delete_items access (first ∷ rest) deleted s =
    if is_ready access
    then (let parent = parent_of first s in
        let waited = deleted.meanwhile (start_loading s) in
        elim deleted.answer [
          | err message ↦ fail ("Deletion failed: " ^^ message) waited
          | ok _ ↦
              let left = delete_in_store (first ∷ rest) parent waited in
              if is_some parent then refetch access left else left
        ])
    else s
