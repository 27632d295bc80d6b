-- ===== src/ChatStore/MessageData/Merge.antt =====
-- What the merge keeps of the local messages: a stream may end before the canister knows of it.
use gpt.Prelude.{
  String, ◌≡◌, refl, sym, ap, ◌∙◌, inl, inr, true, not, ◌||◌, Option, none, some, List, [], ◌∷◌,
  arith, eq_iff, ◌==◌, Bool-cases, or_else, truthy, Dict, lookup, lookup-insert, is_empty,
  lookup-insert_ne,
}
use gpt.Types.{Message}
use gpt.ChatStore.MessageData.{
  insert_fetched, merge_local, merged_content, merged_message, merged_with,
  merge_fetched_with_local_map,
}

-- The keys of a map are distinct.
abbrev pub HasDistinctKeys : Dict Message → Type 0
HasDistinctKeys [] = Unit {0}
HasDistinctKeys ((k, v) ∷ m) = (lookup k m ≡ none) × HasDistinctKeys m

lookup-merge_local-none :
    (ls merged : Dict Message) (id : String)
    → lookup id ls ≡ none
    → lookup id (merge_local ls merged) ≡ lookup id merged
unfolding merge_local lookup
lookup-merge_local-none [] merged id h = refl
lookup-merge_local-none ((k, l) ∷ ls) merged id h = elim (Bool-cases (k == id)) [
  | inl t ↦ cc (let q : some l ≡ none = rw t at h in q)
  | inr f ↦
      let h' : lookup id ls ≡ none = rw f at h in
      lookup-merge_local-none ls _ id h' ∙ lookup-insert_ne k id _ merged f
]

lookup-merge_local :
    (ls merged : Dict Message) (id : String) (l : Message)
    → HasDistinctKeys ls
    → lookup id ls ≡ some l
    → lookup id (merge_local ls merged) ≡ some (merged_with (lookup id merged) l)
unfolding merge_local lookup
lookup-merge_local [] merged id l d h = cc
lookup-merge_local ((k, x) ∷ ls) merged id l d h = elim (Bool-cases (k == id)) [
  | inl t ↦
      let k_id : k ≡ id = (eq_iff k id).0 t in
      let x_l : x ≡ l = cc (let q : some x ≡ some l = rw t at h in q) in
      let gone : lookup id ls ≡ none = sym (ap (λ j. lookup j ls) k_id) ∙ d.0 in
      lookup-merge_local-none ls _ id gone
      ∙ lookup-insert k id _ merged
      ∙ rw t (rw (k_id, x_l) refl)
  | inr f ↦
      let h' : lookup id ls ≡ some l = rw f at h in
      lookup-merge_local ls _ id l d.1 h'
      ∙ ap (λ o. some (merged_with o l)) (lookup-insert_ne k id _ merged f)
]

content_survives :
    (f l : Message) → (is_empty l.content || not (is_empty (merged_message f l).content)) ≡ true
unfolding merged_message merged_content
content_survives f l = ground arith

-- What a local message keeps: if its stream had ended it is complete, if it had a text it has one, and
-- an error or a usage that it had is there.
abbrev pub Survives : Message → Message → Type 0
Survives l r =
    ((not (truthy l.is_complete) || truthy r.is_complete) ≡ true)
    × ((is_empty l.content || not (is_empty r.content)) ≡ true)
    × (r.error_status ≡ or_else l.error_status r.error_status)
    × (r.usage ≡ or_else l.usage r.usage)

merged_with-Survives : (o : Option Message) (l : Message) → Survives l (merged_with o l)
unfolding merged_message
merged_with-Survives none l = (ground arith, ground arith, ground arith, ground arith)
merged_with-Survives (some f) l = (ground arith, content_survives f l, ground arith, ground arith)

-- A local message of a map with distinct keys is still there after the merge, whatever was fetched: if its stream had ended it is
-- complete, if it had a text it has one, and an error or a usage that it had is kept.
pub merge-Survives :
    (fetched : List Message) (local_map : Dict Message) (id : String) (l : Message)
    → HasDistinctKeys local_map
    → lookup id local_map ≡ some l
    → (r : Message) × (lookup id (merge_fetched_with_local_map fetched (some local_map)) ≡ some r)
      × Survives l r
unfolding merge_fetched_with_local_map
merge-Survives fetched local_map id l distinct held =
    let o = lookup id (insert_fetched fetched []) in
    (merged_with o l, lookup-merge_local local_map _ id l distinct held, merged_with-Survives o l)
