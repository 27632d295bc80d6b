-- ===== src/MessageTree.antt =====
-- gpt_frontend/src/utils/messageTree.ts: the tree of a chat's messages, by the id of each parent.
mod Tests
pub mod Children
pub mod Leaf
pub mod Loop
pub mod Maximal
pub mod Round
use gpt.Prelude.{
  ℕ, zero, suc, ◌+◌, String, Bool, true, false, not, ◌&&◌, Option, none, some, List, [], ◌∷◌, ◌++◌,
  ◌==◌, eqb, leb, if◌then◌else◌, get_or, and_then, length, filter, any, Dict, lookup, insert,
  values, sort_by, given,
}
use gpt.Types.{Message, Role, tool}

abbrev pub is_tool : Role → Bool
is_tool tool = true
is_tool _ = false

-- `msg.backendId ?? msg.id`
abbrev pub node_id : Message → String
node_id m = get_or m.backend_id m.id

-- `new Date(m.createdAt).getTime()`
abbrev pub created : Message → ℕ
created m = m.created_at

pub has_child : String → List Message → Bool
has_child id children = any (λ c. node_id c == id) children

-- One round of the loop. An empty parent id is falsy, as a missing one.
add_child : Message → Dict (List Message) → Dict (List Message)
add_child m children = elim (given m.parent_message_id) [
  | none ↦ children
  | some pid ↦
      let siblings = get_or (lookup pid children) [] in
      insert pid (if has_child (node_id m) siblings then siblings else siblings ++ m ∷ []) children
]

add_children : List Message → Dict (List Message) → Dict (List Message)
add_children [] children = children
add_children (m ∷ ms) children =
    add_children ms (if is_tool m.role then children else add_child m children)

sort_children : Dict (List Message) → Dict (List Message)
sort_children [] = []
sort_children ((pid, ms) ∷ rest) = (pid, sort_by created ms) ∷ sort_children rest

pub build_child_map : Dict Message → Dict (List Message)
unfolding add_children sort_children
build_child_map messages = sort_children (add_children (values messages) [])

-- The newest leaf so far: its id and its time. The empty text, which no time has, is `none`.
pub record Newest : Type 0 where
  pub newest_leaf_id : String
  pub newest_time : Option ℕ

-- The time of a message that is newer than none, or at least as new as the newest.
abbrev pub is_newer : Option ℕ → ℕ → Bool
is_newer none t = true
is_newer (some n) t = leb n t

pub visit_leaf : Dict Message → String → Newest → Newest
visit_leaf messages id best = elim (lookup id messages) [
  | none ↦ best
  | some m ↦
      if not (is_tool m.role) && is_newer best.newest_time m.created_at
      then record { newest_leaf_id = id; newest_time = some m.created_at }
      else best
]

abbrev pub is_visited : String → List String → Bool
is_visited id visited = any (λ v. v == id) visited

pub unvisited : List String → List Message → List String
unvisited visited [] = []
unvisited visited (m ∷ ms) =
    let rest = unvisited visited ms in
    if is_visited (node_id m) visited then rest else node_id m ∷ rest

-- The `while` loop, for at most `fuel` rounds; `none` if the queue is not empty by then.
pub walk :
    Dict Message → Dict (List Message) → ℕ → List String → List String → Newest → Option Newest
unfolding visit_leaf unvisited
walk messages children fuel [] visited best = some best
walk messages children zero (id ∷ queue) visited best = none
walk messages children (suc fuel) (id ∷ queue) visited best =
    let skipped = walk messages children fuel queue visited best in
    let leaf = walk messages children fuel queue (id ∷ visited) (visit_leaf messages id best) in
    let below = get_or (lookup id children) [] in
    let deeper =
      walk messages children fuel (queue ++ unvisited (id ∷ visited) below) (id ∷ visited) best in
    if is_visited id visited then skipped else if eqb (length below) 0 then leaf else deeper

pub total_children : Dict (List Message) → ℕ
total_children [] = 0
total_children ((pid, ms) ∷ rest) = length ms + total_children rest

-- Each id is visited once and then queues its children, so a round for the start and one for each
-- child in the map are enough.
pub find_newest_leaf : Dict Message → String → Option String
unfolding walk total_children
find_newest_leaf messages start_id = elim (lookup start_id messages) [
  | none ↦ some start_id
  | some start ↦
      let children = build_child_map messages in
      and_then
        (walk messages children (suc (total_children children)) (start_id ∷ []) []
          (record { newest_leaf_id = start_id; newest_time = some start.created_at }))
        (λ best. some best.newest_leaf_id)
]

-- `(a ?? null) === (b ?? null)`
abbrev pub same_parent : Option String → Option String → Bool
same_parent none none = true
same_parent (some a) (some b) = a == b
same_parent _ _ = false

pub get_siblings : Dict Message → Option String → List Message
get_siblings messages parent_id = sort_by created (
    filter (λ m. not (is_tool m.role) && same_parent m.parent_message_id parent_id)
      (values messages))
