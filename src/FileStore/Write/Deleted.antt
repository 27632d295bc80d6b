-- ===== src/FileStore/Write/Deleted.antt =====
-- What a deletion leaves of the files, the folders and the search index.
use gpt.Prelude.{
  String, ◌≡◌, refl, sym, ap, ◌∙◌, inl, inr, Bool, true, false, not, ◌&&◌, ◌||◌, Option, none, List,
  [], ◌∷◌, arith, eq_iff, ◌==◌, if◌then◌else◌, Bool-cases, Option-cases, is_some, ok, Dict, lookup,
  remove, has, lookup-remove,
}
use gpt.FileStore.State.{FileSystemState, Access, is_ready, Call}
use gpt.FileStore.Read.{begin_fetch}
use gpt.FileStore.Write.{
  ItemType, file, folder, Item, Remaining, delete_one, delete_all, is_file, deletes_file,
  deletes_folder, delete_in_store, parent_of, refetch, start_loading, delete_items,
}

-- An entry is gone if its id is deleted, and else as it was.
abbrev pub Kept : {A : Type 0} → Bool → Dict A → Dict A → String → Type 0
Kept gone before after id = lookup id after ≡ (if gone then none else lookup id before)

remove-Kept : {A : Type 0} (key id : String) (m : Dict A) → Kept (key == id) m (remove key m) id
remove-Kept key id m = lookup-remove key id m

has-none : {A : Type 0} (id : String) (m : Dict A) → has id m ≡ false → lookup id m ≡ none
has-none id m h = elim (Option-cases (lookup id m)) [
  | inl e ↦ e
  | inr (a, e) ↦ absurd (cc (let q : true ≡ false = rw e at h in q))
]

-- Removing an id that is missing is no different.
guarded-Kept :
    {A : Type 0} (key id : String) (m : Dict A) → has key m ≡ false → Kept (key == id) m m id
guarded-Kept key id m missing = elim (Bool-cases (key == id)) [
  | inr f ↦ rw f refl
  | inl t ↦
      let same : key ≡ id = (eq_iff key id).0 t in
      let missing' : has id m ≡ false = rw same at missing in rw t (has-none id m missing')
]

Kept-twice :
    {A : Type 0} (p q : Bool) (a b c : Dict A) (id : String)
    → Kept p a b id
    → Kept q b c id
    → Kept (p || q) a c id
Kept-twice true true a b c id h k = k
Kept-twice true false a b c id h k = k ∙ h
Kept-twice false true a b c id h k = k
Kept-twice false false a b c id h k = k ∙ h

-- All three tables after one item.
abbrev AllKept : (String → Bool) → (String → Bool) → Remaining → Remaining → Type 0
AllKept of_files of_folders r t =
    (id : String)
    → Kept (of_files id) r.files t.files id
      × Kept (of_folders id) r.folders t.folders id
      × Kept (of_files id) r.chunks t.chunks id

delete_one-AllKept :
    (t : ItemType) (key : String) (r : Remaining)
    → AllKept
        (λ id. is_file t && key == id)
        (λ id. not (is_file t) && key == id)
        r
        (delete_one t key r)
unfolding delete_one
delete_one-AllKept folder key r = λ id. (refl, remove-Kept key id r.folders, refl)
delete_one-AllKept file key r = λ id. elim (Bool-cases (has key r.chunks)) [
  | inl t ↦ rw t (remove-Kept key id r.files, refl, remove-Kept key id r.chunks)
  | inr f ↦ rw f (remove-Kept key id r.files, refl, guarded-Kept key id r.chunks f)
]

delete_all-AllKept :
    (items : List Item) (r : Remaining)
    → AllKept (deletes_file items) (deletes_folder items) r (delete_all items r)
unfolding delete_all
delete_all-AllKept [] r = λ id. (refl, refl, refl)
delete_all-AllKept (i ∷ items) r = λ id.
    let u = delete_one i.type i.id r in
    let (f, d, c) = delete_one-AllKept i.type i.id r id in
    let (f', d', c') = delete_all-AllKept items u id in
    (
      Kept-twice (is_file i.type && i.id == id) (deletes_file items id) r.files u.files
          (delete_all items u).files id f f',
      Kept-twice (not (is_file i.type) && i.id == id) (deletes_folder items id) r.folders u.folders
          (delete_all items u).folders id d d',
      Kept-twice (is_file i.type && i.id == id) (deletes_file items id) r.chunks u.chunks
          (delete_all items u).chunks id c c',
    )

-- If the index is not marked as changed, it is not.
delete_one-unchanged :
    (t : ItemType) (key : String) (r : Remaining)
    → (delete_one t key r).index_changed ≡ false
    → ((delete_one t key r).chunks ≡ r.chunks) × (r.index_changed ≡ false)
unfolding delete_one
delete_one-unchanged folder key r h = (refl, h)
delete_one-unchanged file key r h = elim (Bool-cases (has key r.chunks)) [
  | inl t ↦ absurd (cc (let q : true ≡ false = rw t at h in q))
  | inr f ↦ rw f (refl, rw f at h)
]

delete_all-unchanged :
    (items : List Item) (r : Remaining)
    → (delete_all items r).index_changed ≡ false
    → ((delete_all items r).chunks ≡ r.chunks) × (r.index_changed ≡ false)
unfolding delete_all
delete_all-unchanged [] r h = (refl, h)
delete_all-unchanged (i ∷ items) r h =
    let (same, quiet) = delete_all-unchanged items (delete_one i.type i.id r) h in
    let (same', quiet') = delete_one-unchanged i.type i.id r quiet in (same ∙ same', quiet')

-- What is left of the store: each deleted file is gone from the files and from the index, each deleted
-- folder from the folders, and every other entry is as it was.
abbrev pub Deleted : List Item → FileSystemState → FileSystemState → Type 0
Deleted items s t =
    (id : String)
    → Kept (deletes_file items id) s.files t.files id
      × Kept (deletes_folder items id) s.folders t.folders id
      × Kept (deletes_file items id) s.searchable_chunks t.searchable_chunks id

pub delete_in_store-Deleted :
    (items : List Item) (parent : Option String) (s : FileSystemState)
    → Deleted items s (delete_in_store items parent s)
unfolding delete_in_store
delete_in_store-Deleted items parent s = λ id.
    let r : Remaining = record {
      files = s.files;
      folders = s.folders;
      chunks = s.searchable_chunks;
      index_changed = false;
    } in
    let (f, d, c) = delete_all-AllKept items r id in
    (
      f,
      d,
      elim (Bool-cases (delete_all items r).index_changed) [
        | inl t ↦ rw t c
        | inr q ↦ rw q (ap (lookup id) (sym (delete_all-unchanged items r q).0) ∙ c)
      ],
    )

pub refetch-frame :
    (access : Access) (s : FileSystemState)
    → ((refetch access s).files ≡ s.files)
      × ((refetch access s).folders ≡ s.folders)
      × ((refetch access s).searchable_chunks ≡ s.searchable_chunks)
unfolding refetch begin_fetch
refetch-frame access s = ground arith

-- With a session, a deletion of some items that the canister carries out takes each deleted file out of
-- the files and the index and each deleted folder out of the folders, and leaves every other entry of
-- the three as it was when the answer came.
pub delete_items-Deleted :
    (access : Access) (first : Item) (rest : List Item) (deleted : Call (Unit {0}))
    (s : FileSystemState)
    → is_ready access ≡ true
    → deleted.answer ≡ ok tt
    → Deleted
        (first ∷ rest)
        (deleted.meanwhile (start_loading s))
        (delete_items access (first ∷ rest) deleted s)
unfolding delete_items
delete_items-Deleted access first rest deleted s ready answered =
    let items = first ∷ rest in
    let parent = parent_of first s in
    let waited = deleted.meanwhile (start_loading s) in
    let gone = delete_in_store-Deleted items parent waited in
    let (f, d, c) = refetch-frame access (delete_in_store items parent waited) in
    λ id. elim (Bool-cases (is_some parent)) [
      | inl t ↦
          rw (ready, answered, t)
            (
              ap (lookup id) f ∙ (gone id).0,
              ap (lookup id) d ∙ (gone id).1,
              ap (lookup id) c ∙ (gone id).2,
            )
      | inr n ↦ rw (ready, answered, n) (gone id)
    ]
