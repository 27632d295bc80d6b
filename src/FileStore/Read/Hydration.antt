-- ===== src/FileStore/Read/Hydration.antt =====
-- What a fetch leaves behind: the listing, and the mark that a fetch is under way.
use gpt.Prelude.{
  has-insert, String, ◌≡◌, refl, ap, ◌∙◌, Bool, true, false, not, Option, none, some, List, [], ◌∷◌,
  map, is_some, ok, In, here, there, Dict, lookup, insert, has, lookup-insert_self,
}
use gpt.FileStore.State.{
  Folder, FileItem, StoreStatus, hydrating, FileSystemState, Access, is_ready, Call,
}
use gpt.FileStore.Read.{
  FolderResponse, is_hydrating, insert_files, insert_folders, begin_fetch, end_fetch,
  store_response, fetch_folder_contents,
}

insert_files-kept :
    (fs : List FileItem) (id : String) (m : Dict FileItem)
    → has id m ≡ true
    → has id (insert_files fs m) ≡ true
unfolding insert_files
insert_files-kept [] id m h = h
insert_files-kept (f ∷ fs) id m h =
    insert_files-kept fs id (insert f.id f m) (has-insert id f.id f m h)

insert_files-In :
    (fs : List FileItem) (m : Dict FileItem) {f : FileItem}
    → In f fs
    → has f.id (insert_files fs m) ≡ true
unfolding insert_files
insert_files-In [] m i = elim i [ ]
insert_files-In (g ∷ fs) m here =
    insert_files-kept fs g.id (insert g.id g m) (rw (lookup-insert_self g.id g m) refl)
insert_files-In (g ∷ fs) m (there i) = insert_files-In fs (insert g.id g m) i

insert_folders-kept :
    (fs : List Folder) (id : String) (m : Dict Folder)
    → has id m ≡ true
    → has id (insert_folders fs m) ≡ true
unfolding insert_folders
insert_folders-kept [] id m h = h
insert_folders-kept (f ∷ fs) id m h =
    insert_folders-kept fs id (insert f.id f m) (has-insert id f.id f m h)

insert_folders-In :
    (fs : List Folder) (m : Dict Folder) {f : Folder}
    → In f fs
    → has f.id (insert_folders fs m) ≡ true
unfolding insert_folders
insert_folders-In [] m i = elim i [ ]
insert_folders-In (g ∷ fs) m here =
    insert_folders-kept fs g.id (insert g.id g m) (rw (lookup-insert_self g.id g m) refl)
insert_folders-In (g ∷ fs) m (there i) = insert_folders-In fs (insert g.id g m) i

-- The folder of an answer is open and its listing recorded, in the answer's order, and the store has
-- every file and every folder of the listing.
abbrev pub IsListed : FolderResponse → FileSystemState → Type 0
IsListed r t =
    (t.current_folder_id ≡ some r.folder_id)
    × (lookup r.folder_id t.folder_contents
        ≡ some (record {
          folders = map (λ (f : Folder). f.id) r.folders;
          files = map (λ (f : FileItem). f.id) r.files;
        }))
    × ((f : FileItem) → In f r.files → has f.id t.files ≡ true)
    × ((f : Folder) → In f r.folders → has f.id t.folders ≡ true)
    × (t.status ≡ StoreStatus.idle)

store_response-IsListed :
    (is_initial : Bool) (r : FolderResponse) (u : FileSystemState)
    → IsListed r (store_response is_initial r u)
unfolding store_response
store_response-IsListed is_initial r u = (
  refl,
  lookup-insert_self r.folder_id _ u.folder_contents,
  λ f i. insert_files-In r.files u.files i,
  λ f i.
      has-insert f.id r.folder_id _ (insert_folders r.folders u.folders)
        (insert_folders-In r.folders u.folders i),
  refl,
)

end_fetch-IsListed :
    (is_initial : Bool) (folder_id : Option String) (r : FolderResponse) (u : FileSystemState)
    → IsListed r (end_fetch is_initial folder_id (ok r) u)
unfolding end_fetch
end_fetch-IsListed true folder_id r u = store_response-IsListed true r u
end_fetch-IsListed false folder_id r u = store_response-IsListed false r u

-- While a fetch is marked as under way, a fetch does nothing.
blocked :
    (access : Access) (folder_id : Option String) (listing : Call FolderResponse)
    (t : FileSystemState)
    → is_ready access ≡ true
    → t.hydration_status ≡ hydrating
    → fetch_folder_contents access folder_id listing t ≡ t
unfolding fetch_folder_contents begin_fetch
blocked access folder_id listing t ready mark =
    let h : is_hydrating t.hydration_status ≡ true = rw mark refl in rw (ready, h) refl

-- A fetch that calls the canister and is answered.
module _ (access : Access) (folder_id : Option String) (listing : Call FolderResponse)
    (s : FileSystemState) (r : FolderResponse) (ready : is_ready access ≡ true)
    (free : is_hydrating s.hydration_status ≡ false) (answered : listing.answer ≡ ok r) where
  fetched :
      (v : FileSystemState) × (fetch_folder_contents access folder_id listing s
        ≡ end_fetch (not (is_some s.root_folder_id)) folder_id (ok r) (listing.meanwhile v))
      × (v.hydration_status ≡ hydrating)
      × (v.files ≡ s.files)
  unfolding fetch_folder_contents begin_fetch
  fetched = (
    record s { status = StoreStatus.loading; error = none; hydration_status = hydrating },
    rw (ready, free, answered) refl,
    refl,
    refl,
  )

  -- A fetch that calls the canister and is answered opens the folder, records its listing in the
  -- answer's order, and puts every file and every folder of it into the store.
  pub fetch_folder_contents-IsListed : IsListed r (fetch_folder_contents access folder_id listing s)
  fetch_folder_contents-IsListed =
      let (v, e, _, _) = fetched in
      rw e (end_fetch-IsListed (not (is_some s.root_folder_id)) folder_id r (listing.meanwhile v))

  -- Once the root is known, an answered fetch leaves the mark of a fetch under way, if nothing else
  -- takes it away meanwhile: every later fetch of any folder then does nothing.
  pub fetch_folder_contents-stuck :
      (root : String)
      → s.root_folder_id ≡ some root
      → ((v : FileSystemState) → (listing.meanwhile v).hydration_status ≡ v.hydration_status)
      → (later : Access) (wanted : Option String) (again : Call FolderResponse)
      → is_ready later ≡ true
      → let t = fetch_folder_contents access folder_id listing s in
        fetch_folder_contents later wanted again t ≡ t
  unfolding end_fetch store_response
  fetch_folder_contents-stuck root known keeps later wanted again ready' =
      let (v, e, mark, _) = fetched in
      let u = listing.meanwhile v in
      let later_fetch : fetch_folder_contents access folder_id listing s
          ≡ end_fetch false folder_id (ok r) u =
        e ∙ ap (λ o. end_fetch (not (is_some o)) folder_id (ok r) u) known in
      blocked later wanted again (fetch_folder_contents access folder_id listing s) ready'
        (ap (λ (t : FileSystemState). t.hydration_status) later_fetch ∙ keeps v ∙ mark)
