-- ===== src/FileStore/Read/Places.antt =====
-- The open folder and the history, and what a move into a folder makes of them.
use gpt.Prelude.{
  ℕ, zero, suc, String, ◌≡◌, refl, sym, ap, ◌∙◌, inl, inr, Option, none, some, List, [], ◌∷◌, ◌++◌,
  arith, Bool-cases, Option-cases, get_elem?, take, lookup, has,
}
use gpt.FileStore.State.{Folder, Crumb, FileSystemState, Access}
use gpt.FileStore.Read.{begin_fetch, navigate_to_folder}

abbrev pub last_id : List Crumb → Option String
last_id [] = none
last_id (c ∷ []) = some c.id
last_id (c ∷ d ∷ cs) = last_id (d ∷ cs)

abbrev pub IsAt : FileSystemState → Type 0
IsAt s = s.current_folder_id ≡ last_id s.history

pub last_id-append : (cs : List Crumb) (c : Crumb) → last_id (cs ++ c ∷ []) ≡ some c.id
last_id-append [] c = refl
last_id-append (x ∷ []) c = refl
last_id-append (x ∷ y ∷ cs) c = last_id-append (y ∷ cs) c

pub last_id-take :
    (i : ℕ) (cs : List Crumb) (c : Crumb)
    → get_elem? cs i ≡ some c
    → last_id (take (suc i) cs) ≡ some c.id
last_id-take i [] c found = cc
last_id-take zero (x ∷ cs) c found = ground (arith, found)
last_id-take (suc i) (x ∷ []) c found = cc
last_id-take (suc i) (x ∷ y ∷ cs) c found = last_id-take i (y ∷ cs) c found

begin_fetch-frame :
    (access : Access) (s : FileSystemState)
    → ((begin_fetch access s).0.current_folder_id ≡ s.current_folder_id)
      × ((begin_fetch access s).0.history ≡ s.history)
unfolding begin_fetch
begin_fetch-frame access s = ground arith

pub into_known :
    (access : Access) (id : String) (s : FileSystemState) (f : Folder)
    → lookup id s.folders ≡ some f
    → ((navigate_to_folder access id s).0.current_folder_id ≡ some id)
      × ((navigate_to_folder access id s).0.history
          ≡ s.history ++ record { id = id; name = f.name } ∷ [])
unfolding navigate_to_folder
into_known access id s f found =
    rw (found, navigate_to_folder)
      (elim (Bool-cases (has id s.folder_contents)) [
        | inl t ↦ rw t (refl, refl)
        | inr n ↦ rw n (
            begin_fetch-frame access (record s {
              current_folder_id = some id;
              history = s.history ++ record { id = id; name = f.name } ∷ [];
            }))
      ])

into-IsAt :
    (access : Access) (id : String) (s : FileSystemState)
    → IsAt s
    → IsAt (navigate_to_folder access id s).0
unfolding navigate_to_folder
into-IsAt access id s h = elim (Option-cases (lookup id s.folders)) [
  | inl unknown ↦ rw (unknown, navigate_to_folder) h
  | inr (f, found) ↦
      let (at_, path) = into_known access id s f found in
      at_
      ∙ sym (last_id-append s.history (record { id = id; name = f.name }))
      ∙ ap last_id (sym path)
]
