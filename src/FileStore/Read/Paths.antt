-- ===== src/FileStore/Read/Paths.antt =====
-- The walk from a folder up to the root.
use gpt.Prelude.{
  ℕ, zero, suc, ◌<◌, String, ◌≡◌, refl, inl, inr, true, false, Option, none, some, List, [], ◌∷◌,
  arith, Bool-cases, Option-cases, Result, ok, err, Result-cases,
}
use gpt.FileStore.State.{Crumb, StoreStatus, FileSystemState, Access, is_ready, Call}
use gpt.FileStore.Read.{
  FolderResponse, PathItem, target_of, folder_info, walk_up, after_info, has_folder_name,
  is_loading, path_failed, navigate_to_path,
}
use gpt.FileStore.Read.Places.{last_id}

-- The stores that a walk which starts in `s` can meet: others change the store while it waits.
pub data Met (meanwhile : String → FileSystemState → FileSystemState) (s : FileSystemState)
    : FileSystemState → Type 0 where
  start : Met meanwhile s s
  awaited :
      (id : String) (u : FileSystemState) → Met meanwhile s u → Met meanwhile s (meanwhile id u)

module _ (ask : String → Result FolderResponse)
    (meanwhile : String → FileSystemState → FileSystemState) (first : FileSystemState) where
  -- The folder has this name and this parent in a store that the walk can meet.
  abbrev pub IsInfo : String → String × Option String → Type 0
  IsInfo id info =
      (u : FileSystemState) × Met meanwhile first u × (folder_info ask u.folders id ≡ ok info)

  -- Each folder of the path stands below the one before it, and the first one below `parent`.
  abbrev pub Linked : Option String → List Crumb → Type 0
  Linked parent [] = Unit
  Linked parent (c ∷ cs) = IsInfo c.id (c.name, parent) × Linked (some c.id) cs

  -- A rank that falls from each folder to its parent: there is no cycle.
  abbrev pub IsRanked : (String → ℕ) → Type 0
  IsRanked rank =
      (u : FileSystemState) (id name parent : String)
      → Met meanwhile first u
      → folder_info ask u.folders id ≡ ok (name, some parent)
      → rank parent < rank id

  -- What the walk ends with: an error, or a path from a root to the folder.
  abbrev pub Walked : Option String → Result (List Crumb) → Type 0
  Walked end (ok path) = Linked none path × (last_id path ≡ end)
  Walked end (err message) = Unit

  after_info-Met :
      (id : String) (s : FileSystemState)
      → Met meanwhile first s
      → Met meanwhile first (after_info meanwhile id s)
  after_info-Met id s met = elim (Bool-cases (has_folder_name s.folders id)) [
    | inl t ↦ rw t met
    | inr f ↦ rw f (awaited id s met)
  ]

  walk_up-none :
      (fuel : ℕ) (s : FileSystemState) (path : List Crumb)
      → walk_up fuel ask meanwhile s none path ≡ some (s, ok path)
  unfolding walk_up
  walk_up-none zero s path = refl
  walk_up-none (suc fuel) s path = refl

  -- The end of a path that the walk goes on from `id`.
  abbrev end_of : String → List Crumb → String
  end_of id [] = id
  end_of id (c ∷ cs) = end_of c.id cs

  last_id-end : (c : Crumb) (cs : List Crumb) → last_id (c ∷ cs) ≡ some (end_of c.id cs)
  last_id-end c [] = refl
  last_id-end c (d ∷ cs) = last_id-end d cs

  walk_up-Walked :
      (rank : String → ℕ)
      → IsRanked rank
      → (fuel : ℕ) (s : FileSystemState) (id : String) (path : List Crumb) → Met meanwhile first s
      → rank id < fuel
      → Linked (some id) path
      → (t : FileSystemState) × (r : Result (List Crumb)) × (walk_up fuel ask meanwhile s
            (some id)
            path
          ≡ some (t, r))
        × Met meanwhile first t
        × Walked (some (end_of id path)) r
  unfolding walk_up
  walk_up-Walked rank ranked zero s id path met enough linked = absurd (omega (arith, enough))
  walk_up-Walked rank ranked (suc fuel) s id path met enough linked =
      let later = after_info meanwhile id s in
      let met' = after_info-Met id s met in
      elim (Result-cases (folder_info ask s.folders id)) [
        | inr (message, e) ↦ (later, err message, rw (e, walk_up) refl, met', tt)
        | inl ((name, parent), e) ↦
            let top : Crumb = record { id = id; name = name } in
            elim (Option-cases parent) [
              | inl root ↦
                  let e' : folder_info ask s.folders id ≡ ok (name, none) = rw root at e in
                  (
                    later,
                    ok (top ∷ path),
                    rw (e', walk_up) (walk_up-none fuel later (top ∷ path)),
                    met',
                    (((s, met, e'), linked), last_id-end top path),
                  )
              | inr (up, below) ↦
                  let e' : folder_info ask s.folders id ≡ ok (name, some up) = rw below at e in
                  let (t, r, done, met_t, w) =
                    walk_up-Walked rank ranked fuel later up (top ∷ path) met'
                      (omega (arith, ranked s id name up met e', enough)) ((s, met, e'), linked) in
                  (t, r, rw (e', walk_up) done, met_t, w)
            ]
      ]

abbrev pub begun : FileSystemState → FileSystemState
begun s = record s { status = StoreStatus.loading; error = none }

-- What the action does with the end of the walk.
abbrev pub arrive :
    (Option String → FileSystemState → FileSystemState)
    → String
    → FileSystemState
    → Result (List Crumb)
    → FileSystemState
arrive refetch target s (err message) = refetch none (path_failed message s)
arrive refetch target s (ok path) = refetch (some target) (record s { history = path })

-- With a session, an answer for the path, no cycle among the folders of the stores that the walk can
-- meet, and fuel above the rank of the folder that the path leads to: the action ends, whatever others
-- do to the store while it waits. It either fails and fetches the home folder, or stores a history that
-- leads from a root to the folder, each one below the one before it in a store that the walk met, and
-- fetches the folder.
pub navigate_to_path-Walked :
    (fuel : ℕ) (access : Access) (item : Call PathItem) (ask : String → Result FolderResponse)
    (meanwhile : String → FileSystemState → FileSystemState)
    (refetch : Option String → FileSystemState → FileSystemState) (s : FileSystemState)
    (i : PathItem) (rank : String → ℕ)
    → is_ready access ≡ true
    → is_loading s.status ≡ false
    → item.answer ≡ ok i
    → IsRanked ask meanwhile (item.meanwhile (begun s)) rank
    → rank (target_of i) < fuel
    → let first = item.meanwhile (begun s) in
      (t : FileSystemState) × (r : Result (List Crumb)) × Met meanwhile first t
      × Walked ask meanwhile first (some (target_of i)) r
      × (navigate_to_path fuel access item ask meanwhile refetch s
          ≡ some (arrive refetch (target_of i) t r))
unfolding navigate_to_path
navigate_to_path-Walked fuel access item ask meanwhile refetch s i rank ready free answered ranked
      enough =
    let s1 = item.meanwhile (begun s) in
    let (t, r, done, met, w) =
      walk_up-Walked ask meanwhile s1 rank ranked fuel s1 (target_of i) [] start enough tt in
    elim (Result-cases r) [
      | inl (path, e) ↦
          let done' : walk_up fuel ask meanwhile s1 (some (target_of i)) [] ≡ some (t, ok path) =
            rw e at done in
          (t, ok path, met, rw e at w, rw (ready, free, answered, done') refl)
      | inr (message, e) ↦
          let done' : walk_up fuel ask meanwhile s1 (some (target_of i)) []
              ≡ some (t, err message) =
            rw e at done in
          (t, err message, met, tt, rw (ready, free, answered, done') refl)
    ]
