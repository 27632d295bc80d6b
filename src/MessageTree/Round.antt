-- ===== src/MessageTree/Round.antt =====
-- One round of the search loop: what held of the ids visited and queued holds after it.
use gpt.Prelude.{
  String, ◌≡◌, refl, sym, ◌∙◌, ◌⊎◌, inl, inr, true, false, some, List, [], ◌∷◌, ◌++◌, append-nil,
  arith, eqb, Bool-cases, In, length, In-cons, Dict, lookup,
}
use gpt.Types.{Message}
use gpt.MessageTree.{node_id, Newest, visit_leaf, is_visited, unvisited}
use gpt.MessageTree.Loop.{
  children_of, Closed, Bounded, IsDated, visit_leaf_mono, visit_leaf-bound, visited-cons,
  visited-tail, visited-head, In-left, In-right, In-unvisited,
}

-- What the loop has when it ends: a set of ids that is closed under children, contains those that
-- were visited or queued, and whose leaves are not newer than the leaf that was found.
abbrev pub Ends : Dict Message → Dict (List Message) → List String → List String → Newest → Type 0
Ends messages children queue visited end =
    (final : List String) × Closed children [] final
    × Bounded messages children final end
    × IsDated messages end
    × ((v : String) → (is_visited v visited ≡ true) ⊎ In v queue → is_visited v final ≡ true)

pub Ends-skipped :
    (messages : Dict Message) (children : Dict (List Message)) (id : String)
    (queue visited : List String) (end : Newest)
    → is_visited id visited ≡ true
    → Ends messages children queue visited end
    → Ends messages children (id ∷ queue) visited end
Ends-skipped messages children id queue visited end seen (final, closed, bounded, dated, all) = (
  final,
  closed,
  bounded,
  dated,
  λ v held. elim held [
    | inl h ↦ all v (inl h)
    | inr i ↦ elim (In-cons i) [ inl e ↦ all v (inl (rw e seen)) | inr j ↦ all v (inr j) ]
  ],
)

pub Ends-visited :
    (messages : Dict Message) (children : Dict (List Message)) (id : String)
    (queue new visited : List String) (end : Newest)
    → Ends messages children (queue ++ new) (id ∷ visited) end
    → Ends messages children (id ∷ queue) visited end
Ends-visited messages children id queue new visited end (final, closed, bounded, dated, all) = (
  final,
  closed,
  bounded,
  dated,
  λ v held. elim held [
    | inl h ↦ all v (inl (visited-tail id v visited h))
    | inr i ↦ elim (In-cons i) [
      | inl e ↦ all v (inl (visited-head id v visited e))
      | inr j ↦ all v (inr (In-left new j))
    ]
  ],
)

pub Closed-skipped :
    (children : Dict (List Message)) (id : String) (queue visited : List String)
    → is_visited id visited ≡ true
    → Closed children (id ∷ queue) visited
    → Closed children queue visited
unfolding Closed
Closed-skipped children id queue visited seen closed = λ v c h i. elim (closed v c h i) [
  | inl t ↦ inl t
  | inr j ↦ elim (In-cons j) [ inl e ↦ inl (rw e seen) | inr k ↦ inr k ]
]

pub Closed-visited :
    (children : Dict (List Message)) (id : String) (queue visited : List String)
    → Closed children (id ∷ queue) visited
    → Closed children (queue ++ unvisited (id ∷ visited) (children_of children id)) (id ∷ visited)
unfolding Closed
Closed-visited children id queue visited closed = λ v c h i. elim (visited-cons id v visited h) [
  | inl e ↦ elim (Bool-cases (is_visited (node_id c) (id ∷ visited))) [
    | inl t ↦ inl t
    | inr f ↦
        let i' : In c (children_of children id) = rw e i in
        inr (In-right queue (In-unvisited (id ∷ visited) i' f))
  ]
  | inr old ↦ elim (closed v c old i) [
    | inl t ↦ inl (visited-tail id (node_id c) visited t)
    | inr j ↦ elim (In-cons j) [
      | inl e ↦ inl (visited-head id (node_id c) visited e)
      | inr k ↦ inr (In-left (unvisited (id ∷ visited) (children_of children id)) k)
    ]
  ]
]

pub Bounded-leaf :
    (messages : Dict Message) (children : Dict (List Message)) (id : String) (visited : List String)
    (best : Newest)
    → Bounded messages children visited best
    → Bounded messages children (id ∷ visited) (visit_leaf messages id best)
unfolding Bounded
Bounded-leaf messages children id visited best bounded = λ v m h leaf.
    elim (visited-cons id v visited h) [
      | inl e ↦
          let held : lookup id messages ≡ some m = rw e leaf.1 in
          visit_leaf-bound messages id best m held leaf.2
      | inr old ↦ visit_leaf_mono messages id best m.created_at (bounded v m old leaf)
    ]

pub Bounded-inner :
    (messages : Dict Message) (children : Dict (List Message)) (id : String) (visited : List String)
    (best : Newest)
    → eqb (length (children_of children id)) 0 ≡ false
    → Bounded messages children visited best
    → Bounded messages children (id ∷ visited) best
unfolding Bounded
Bounded-inner messages children id visited best inner bounded = λ v m h leaf.
    elim (visited-cons id v visited h) [
      | inl e ↦
          let none_below : eqb (length (children_of children id)) 0 ≡ true = rw e leaf.0 in
          absurd (cc (let q : true ≡ false = sym none_below ∙ inner in q))
      | inr old ↦ bounded v m old leaf
    ]

pub unvisited-nil :
    (visited : List String) (ms : List Message)
    → eqb (length ms) 0 ≡ true
    → unvisited visited ms ≡ []
unfolding unvisited
unvisited-nil visited [] h = refl
unvisited-nil visited (m ∷ ms) h = ground arith

pub append_nil : (xs : List String) (ys : List String) → ys ≡ [] → xs ++ ys ≡ xs
append_nil xs ys e = rw e (append-nil xs)
