-- ===== src/MessageTree/Loop.antt =====
-- The loop of the search, and what each visit keeps.
use gpt.Prelude.{
  ℕ, ◌≤◌, String, ◌≡◌, refl, ◌⊎◌, inl, inr, true, false, not, ◌&&◌, Option, some, List, [], ◌∷◌,
  ◌++◌, arith, eq_iff, eqb, leb, Bool-cases, Option-cases, get_or, In, here, there, length, Dict,
  lookup,
}
use gpt.Types.{Message}
use gpt.MessageTree.{is_tool, node_id, Newest, is_newer, visit_leaf, is_visited, unvisited}

abbrev pub children_of : Dict (List Message) → String → List Message
children_of children id = get_or (lookup id children) []

-- The ids below an id, itself among them.
pub data Below (children : Dict (List Message)) (start : String) : String → Type 0 where
  root : Below children start start
  child :
      {id : String} {m : Message}
      → Below children start id
      → In m (children_of children id)
      → Below children start (node_id m)

-- An id without children, whose message is not a tool's.
abbrev pub IsLeaf : Dict Message → Dict (List Message) → String → Message → Type 0
IsLeaf messages children id m =
    (eqb (length (children_of children id)) 0 ≡ true)
    × (lookup id messages ≡ some m)
    × (is_tool m.role ≡ false)

-- A time is known, and it is not before `t`.
abbrev pub NotBefore : Option ℕ → ℕ → Type 0
NotBefore time t = (n : ℕ) × (time ≡ some n) × (t ≤ n)

unfoldable pub Closed : Dict (List Message) → List String → List String → Type 0
Closed children queue visited =
    (v : String) (c : Message)
    → is_visited v visited ≡ true
    → In c (children_of children v)
    → (is_visited (node_id c) visited ≡ true) ⊎ In (node_id c) queue

unfoldable pub Bounded : Dict Message → Dict (List Message) → List String → Newest → Type 0
Bounded messages children visited best =
    (v : String) (m : Message)
    → is_visited v visited ≡ true
    → IsLeaf messages children v m
    → NotBefore best.newest_time m.created_at

-- The leaf is a message, and its time is the message's.
abbrev pub IsDated : Dict Message → Newest → Type 0
IsDated messages best =
    (m : Message) × (lookup best.newest_leaf_id messages ≡ some m)
    × (best.newest_time ≡ some m.created_at)

pub visit_leaf-IsDated :
    (messages : Dict Message) (id : String) (best : Newest)
    → IsDated messages best
    → IsDated messages (visit_leaf messages id best)
unfolding visit_leaf
visit_leaf-IsDated messages id best dated = elim (Option-cases (lookup id messages)) [
  | inl e ↦ rw (e, visit_leaf) dated
  | inr (m, e) ↦
      elim (Bool-cases (not (is_tool m.role) && is_newer best.newest_time m.created_at)) [
        | inl t ↦ rw (e, visit_leaf) (rw t (m, e, refl))
        | inr f ↦ rw (e, visit_leaf) (rw f dated)
      ]
]

pub visit_leaf_mono :
    (messages : Dict Message) (id : String) (best : Newest) (t : ℕ)
    → NotBefore best.newest_time t
    → NotBefore (visit_leaf messages id best).newest_time t
unfolding visit_leaf
visit_leaf_mono messages id best t (n, e, h) = elim (Option-cases (lookup id messages)) [
  | inl q ↦ rw (q, visit_leaf) (n, e, h)
  | inr (m, q) ↦
      elim (Bool-cases (not (is_tool m.role) && is_newer best.newest_time m.created_at)) [
        | inl p ↦ rw (q, visit_leaf) (rw p (m.created_at, refl, ground (arith, e, p, h)))
        | inr f ↦ rw (q, visit_leaf) (rw f (n, e, h))
      ]
]

pub visit_leaf-bound :
    (messages : Dict Message) (id : String) (best : Newest) (m : Message)
    → lookup id messages ≡ some m
    → is_tool m.role ≡ false
    → NotBefore (visit_leaf messages id best).newest_time m.created_at
unfolding visit_leaf
visit_leaf-bound messages id best m e plain = elim (Option-cases best.newest_time) [
  | inl q ↦ rw (e, visit_leaf) (rw (plain, q) (m.created_at, refl, omega arith))
  | inr (n, q) ↦ elim (Bool-cases (leb n m.created_at)) [
    | inl t ↦ rw (e, visit_leaf) (rw (plain, q) (rw t (m.created_at, refl, omega arith)))
    | inr f ↦ rw (e, visit_leaf) (rw (plain, q) (rw f (n, refl, ground (arith, f))))
  ]
]

pub visited-cons :
    (id v : String) (visited : List String)
    → is_visited v (id ∷ visited) ≡ true
    → (id ≡ v) ⊎ (is_visited v visited ≡ true)
visited-cons id v visited h = ground (arith, eq_iff id v)

pub visited-tail :
    (id v : String) (visited : List String)
    → is_visited v visited ≡ true
    → is_visited v (id ∷ visited) ≡ true
visited-tail id v visited h = ground arith

pub visited-head :
    (id v : String) (visited : List String) → v ≡ id → is_visited v (id ∷ visited) ≡ true
visited-head id v visited h = ground (arith, eq_iff id v)

pub In-left : {A : Type 0} {a : A} {xs : List A} (ys : List A) → In a xs → In a (xs ++ ys)
In-left ys (here) = here
In-left ys (there i) = there (In-left ys i)

pub In-right : {A : Type 0} {a : A} (xs : List A) {ys : List A} → In a ys → In a (xs ++ ys)
In-right [] i = i
In-right (x ∷ xs) i = there (In-right xs i)

pub In-unvisited :
    (visited : List String) {c : Message} {ms : List Message}
    → In c ms
    → is_visited (node_id c) visited ≡ false
    → In (node_id c) (unvisited visited ms)
unfolding unvisited
In-unvisited visited (here) h = rw h here
In-unvisited visited (there {x} i) h = elim (Bool-cases (is_visited (node_id x) visited)) [
  | inl t ↦ rw t (In-unvisited visited i h)
  | inr f ↦ rw f (there (In-unvisited visited i h))
]
