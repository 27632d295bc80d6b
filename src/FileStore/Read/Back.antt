-- ===== src/FileStore/Read/Back.antt =====
-- The way back out of a folder, and the answer that is still to come.
use gpt.Prelude.{
  ℕ, suc, ◌+◌, ◌-◌, String, ◌≡◌, refl, sym, ap, ◌∙◌, inl, inr, Bool, true, false, not, ◌&&◌, Option,
  none, some, List, [], ◌∷◌, ◌++◌, arith, eqb, ltb, if◌then◌else◌, Bool-cases, is_some, ok, length,
  get_elem?, take, length-append, lookup, has,
}
use gpt.FileStore.State.{Folder, Crumb, FileSystemState, Access, is_ready}
use gpt.FileStore.Read.{
  Fetch, FolderResponse, begin_fetch, end_fetch, finish_fetch, is_hydrating, navigate_back,
  navigate_to_folder, navigate_to_history_index, store_response,
}
use gpt.FileStore.Read.Places.{IsAt, into_known, last_id}

before_last :
    (cs : List Crumb) (c d : Crumb)
    → (x : Crumb) × (get_elem? ((c ∷ cs) ++ d ∷ []) (length cs) ≡ some x)
      × (last_id (c ∷ cs) ≡ some x.id)
before_last [] c d = (c, refl, refl)
before_last (y ∷ cs) c d = before_last cs y d

take_before : (cs : List Crumb) (d : Crumb) → take (length cs) (cs ++ d ∷ []) ≡ cs
take_before [] d = refl
take_before (c ∷ cs) d = ap (λ (l : List Crumb). c ∷ l) (take_before cs d)

back_to :
    (m : FileSystemState) (i : ℕ) (x : Crumb)
    → length m.history ≡ i + 2
    → get_elem? m.history i ≡ some x
    → ((navigate_back m).current_folder_id ≡ some x.id)
      × ((navigate_back m).history ≡ take (suc i) m.history)
unfolding navigate_back navigate_to_history_index
back_to m i x size found =
    let long : ltb 1 (length m.history) ≡ true = ground (arith, size) in
    let at_ : length m.history - 2 ≡ i = omega (arith, size) in
    let found' : get_elem? m.history (length m.history - 2) ≡ some x = rw at_ found in
    rw (long, found', navigate_to_history_index) (refl, ap (λ n. take (suc n) m.history) at_)

abbrev pub fetches : Access → String → FileSystemState → Bool
fetches access id s =
    not (has id s.folder_contents) && is_ready access && not (is_hydrating s.hydration_status)

pub late : Option Fetch → FolderResponse → FileSystemState → FileSystemState
late none r s = s
late (some f) r s = finish_fetch f (ok r) s

-- A fetch is under way exactly when the folder is not listed yet and the fetch is not stopped by its
-- own guards.
into_fetch :
    (access : Access) (id : String) (s : FileSystemState) (f : Folder)
    → lookup id s.folders ≡ some f
    → (navigate_to_folder access id s).1 ≡ (
        if fetches access id s
        then some (record { is_initial = not (is_some s.root_folder_id); folder_id = id })
        else none)
unfolding navigate_to_folder begin_fetch
into_fetch access id s f found =
    rw (found, navigate_to_folder)
      (elim (Bool-cases (has id s.folder_contents)) [
        | inl t ↦ rw t refl
        | inr n ↦ rw n (elim (Bool-cases (is_ready access)) [
          | inl r ↦ rw r (elim (Bool-cases (is_hydrating s.hydration_status)) [
            | inl b ↦ rw b refl
            | inr b ↦ rw b refl
          ])
          | inr r ↦ rw r refl
        ])
      ])

back_again :
    (access : Access) (id : String) (s : FileSystemState) (f : Folder) (c : Crumb) (cs : List Crumb)
    → lookup id s.folders ≡ some f
    → s.history ≡ c ∷ cs
    → IsAt s
    → let t = navigate_back (navigate_to_folder access id s).0 in
      (t.current_folder_id ≡ s.current_folder_id) × (t.history ≡ s.history)
back_again access id s f c cs found listed h =
    let (at_, path) = into_known access id s f found in
    let d : Crumb = record { id = id; name = f.name } in
    let m = (navigate_to_folder access id s).0 in
    let path' : m.history ≡ (c ∷ cs) ++ d ∷ [] =
      path ∙ ap (λ (l : List Crumb). l ++ d ∷ []) listed in
    let size : length m.history ≡ length cs + 2 =
      ap length path' ∙ length-append (c ∷ cs) (d ∷ []) ∙ (omega arith) in
    let (x, at_x, last) = before_last cs c d in
    let (current, history) = back_to m (length cs) x size (rw path' at_x) in
    (
      current ∙ sym (h ∙ ap last_id listed ∙ last),
      history ∙ ap (take (length (c ∷ cs))) path' ∙ take_before (c ∷ cs) d ∙ sym listed,
    )

-- The answer of a fetch that was begun in `s` and is finished in `t`.
late_answer :
    (access : Access) (id : String) (s t : FileSystemState) (c : Crumb) (cs : List Crumb)
    (r : FolderResponse)
    → is_some s.root_folder_id ≡ true
    → t.history ≡ c ∷ cs
    → let fetch : Fetch = record { is_initial = not (is_some s.root_folder_id); folder_id = id } in
      let later = late (if fetches access id s then some fetch else none) r t in
      (later.current_folder_id
        ≡ (if fetches access id s then some r.folder_id else t.current_folder_id))
      × (later.history ≡ t.history)
unfolding late finish_fetch end_fetch store_response
late_answer access id s t c cs r rooted listed =
    let size : length t.history ≡ suc (length cs) = ap length listed in
    let long : eqb (length t.history) 0 ≡ false = ground (arith, size) in
    elim (Bool-cases (fetches access id s)) [
      | inl y ↦ rw y (rw rooted (refl, rw long refl))
      | inr n ↦ rw n (refl, refl)
    ]

-- From a place with a history that ends in it, in a store that has its root, going into a known folder
-- and back leads to the same folder with the same history. If the folder is not listed yet, the user
-- is signed in and no listing is under way, the folder is fetched on the way: an answer that arrives
-- after the way back opens the folder that it brings, while the history does not change.
pub navigate_back-into :
    (access : Access) (id : String) (s : FileSystemState) (f : Folder) (c : Crumb) (cs : List Crumb)
    (r : FolderResponse)
    → lookup id s.folders ≡ some f
    → s.history ≡ c ∷ cs
    → IsAt s
    → is_some s.root_folder_id ≡ true
    → let (m, fetch) = navigate_to_folder access id s in
      let t = navigate_back m in
      let later = late fetch r t in
      (t.current_folder_id ≡ s.current_folder_id)
      × (t.history ≡ s.history)
      × (later.current_folder_id
          ≡ (if fetches access id s then some r.folder_id else s.current_folder_id))
      × (later.history ≡ s.history)
navigate_back-into access id s f c cs r found listed h rooted =
    let (current, history) = back_again access id s f c cs found listed h in
    let (current', history') =
      late_answer access id s (navigate_back (navigate_to_folder access id s).0) c cs r rooted
        (history ∙ listed) in
    (
      current,
      history,
      rw (into_fetch access id s f found)
          (current' ∙ ap (λ o. if fetches access id s then some r.folder_id else o) current),
      rw (into_fetch access id s f found) (history' ∙ history),
    )
