-- ===== src/FileStore/Read/Navigation.antt =====
-- The way through the folders: the open folder is the last of the history.
use gpt.Prelude.{
  ℕ, suc, ◌-◌, String, ◌≡◌, refl, sym, ap, ◌∙◌, ◌⊎◌, inl, inr, Option, none, some, List, [], ◌∷◌,
  ◌++◌, ltb, Bool-cases, Option-cases, Result, ok, err, In, here, there, length, get_elem?, take,
  drop, lookup,
}
use gpt.FileStore.State.{FileSystemState, Access}
use gpt.FileStore.Read.{
  Fetch, FolderResponse, end_fetch, finish_fetch, navigate_back, navigate_to_folder,
  navigate_to_history_index, store_response,
}
use gpt.FileStore.Read.Places.{IsAt, into_known, last_id, last_id-append, last_id-take}

-- An answer arrives for one of the fetches that are under way.
pub data Move : Type 0 where
  into : Access → (folder_id : String) → Move
  back : Move
  jump : (index : ℕ) → Move
  arrives : (fetch : ℕ) → Result FolderResponse → Move

pub record Visit : Type 0 where
  pub store : FileSystemState
  pub pending : List Fetch

started : Option Fetch → List Fetch
started none = []
started (some f) = f ∷ []

pub go : Move → Visit → Visit
unfolding started
go (into access folder_id) v =
    let (s, fetch) = navigate_to_folder access folder_id v.store in
    record { store = s; pending = v.pending ++ started fetch }
go back v = record v { store = navigate_back v.store }
go (jump index) v = record v { store = navigate_to_history_index index v.store }
go (arrives i answer) v = elim (get_elem? v.pending i) [
  | none ↦ v
  | some f ↦ record {
    store = finish_fetch f answer v.store;
    pending = take i v.pending ++ drop (suc i) v.pending;
  }
]

pub walk : List Move → Visit → Visit
unfolding go
walk [] v = v
walk (m ∷ ms) v = walk ms (go m v)

-- The folders that the answers have brought.
pub brought : List Move → List FolderResponse
brought [] = []
brought (arrives _ (ok r) ∷ ms) = r ∷ brought ms
brought (_ ∷ ms) = brought ms

brought-first :
    (m : Move) (ms : List Move) (r : FolderResponse)
    → In r (brought (m ∷ []))
    → In r (brought (m ∷ ms))
unfolding brought
brought-first (into access id) ms r h = elim h [ ]
brought-first back ms r h = elim h [ ]
brought-first (jump i) ms r h = elim h [ ]
brought-first (arrives i (err message)) ms r h = elim h [ ]
brought-first (arrives i (ok x)) ms r here = here
brought-first (arrives i (ok x)) ms r (there h) = elim h [ ]

brought-later :
    (m : Move) (ms : List Move) (r : FolderResponse) → In r (brought ms) → In r (brought (m ∷ ms))
unfolding brought
brought-later (into access id) ms r i = i
brought-later back ms r i = i
brought-later (jump k) ms r i = i
brought-later (arrives k (err message)) ms r i = i
brought-later (arrives k (ok x)) ms r i = there i

-- The open folder is the last of the history, or one of those that `Q` allows.
abbrev At : (String → Type 0) → FileSystemState → Type 0
At Q s = IsAt s ⊎ ((id : String) × (s.current_folder_id ≡ some id) × Q id)

module _ (Q : String → Type 0) where
  jump-At : (i : ℕ) (s : FileSystemState) → At Q s → At Q (navigate_to_history_index i s)
  unfolding navigate_to_history_index
  jump-At i s h = elim (Option-cases (get_elem? s.history i)) [
    | inl out ↦ rw (out, navigate_to_history_index) h
    | inr (c, found) ↦
        rw (found, navigate_to_history_index) (inl (sym (last_id-take i s.history c found)))
  ]

  back-At : (s : FileSystemState) → At Q s → At Q (navigate_back s)
  unfolding navigate_back
  back-At s h = elim (Bool-cases (ltb 1 (length s.history))) [
    | inl t ↦ rw t (jump-At (length s.history - 2) s h)
    | inr f ↦ rw f h
  ]

  into-At :
      (access : Access) (id : String) (s : FileSystemState)
      → At Q s
      → At Q (navigate_to_folder access id s).0
  unfolding navigate_to_folder
  into-At access id s h = elim (Option-cases (lookup id s.folders)) [
    | inl unknown ↦ rw (unknown, navigate_to_folder) h
    | inr (f, found) ↦
        let (at_, path) = into_known access id s f found in
        inl (
          at_
          ∙ sym (last_id-append s.history (record { id = id; name = f.name }))
          ∙ ap last_id (sym path))
  ]

  -- The first answer of all makes the history; a later one leaves it as it is.
  finish-At :
      (f : Fetch) (answer : Result FolderResponse) (s : FileSystemState)
      → ((r : FolderResponse) → answer ≡ ok r → Q r.folder_id)
      → At Q s
      → At Q (finish_fetch f answer s)
  unfolding finish_fetch end_fetch store_response
  finish-At f (err message) s q h = h
  finish-At f (ok r) s q h = elim (Bool-cases f.is_initial) [
    | inl t ↦ rw t (inl refl)
    | inr n ↦ rw n (inr (r.folder_id, refl, q r refl))
  ]

  go-At :
      (m : Move) (v : Visit)
      → ((r : FolderResponse) → In r (brought (m ∷ [])) → Q r.folder_id)
      → At Q v.store
      → At Q (go m v).store
  unfolding go brought
  go-At (into access id) v q h = into-At access id v.store h
  go-At back v q h = back-At v.store h
  go-At (jump i) v q h = jump-At i v.store h
  go-At (arrives i (err message)) v q h = elim (Option-cases (get_elem? v.pending i)) [
    | inl out ↦ rw (out, go) h
    | inr (f, found) ↦ rw (found, go) (finish-At f (err message) v.store (λ r e. cc) h)
  ]
  go-At (arrives i (ok r)) v q h = elim (Option-cases (get_elem? v.pending i)) [
    | inl out ↦ rw (out, go) h
    | inr (f, found) ↦
        let same : (x : FolderResponse) → ok r ≡ ok x → Q x.folder_id =
          λ x e. let e' : r ≡ x = cc in rw⁻¹ e' (q r here) in
        rw (found, go) (finish-At f (ok r) v.store same h)
  ]

  walk-At :
      (ms : List Move) (v : Visit)
      → ((r : FolderResponse) → In r (brought ms) → Q r.folder_id)
      → At Q v.store
      → At Q (walk ms v).store
  unfolding walk
  walk-At [] v q h = h
  walk-At (m ∷ ms) v q h =
      walk-At ms (go m v) (λ r i. q r (brought-later m ms r i))
        (go-At m v (λ r i. q r (brought-first m ms r i)) h)

-- After any moves into folders, back, and along the history, and any answers to the fetches that are
-- under way, in whatever order, the open folder is the last one of the history, or one that an answer
-- has brought, if it was the last one of the history at the start.
pub walk-IsAt :
    (ms : List Move) (v : Visit)
    → IsAt v.store
    → let s = (walk ms v).store in
      IsAt s ⊎ ((r : FolderResponse) × In r (brought ms) × (s.current_folder_id ≡ some r.folder_id))
walk-IsAt ms v h =
    elim (walk-At (λ id. (r : FolderResponse) × In r (brought ms) × (r.folder_id ≡ id)) ms v
      (λ r i. (r, i, refl)) (inl h)) [
        | inl at_ ↦ inl at_
        | inr (id, current, (r, i, same)) ↦ inr (r, i, current ∙ ap some (sym same))
      ]
