-- ===== src/MessageTree/Maximal.antt =====
-- The leaf that is found is the newest of those below the start.
use gpt.Prelude.{
  ℕ, zero, suc, ◌≤◌, String, ◌≡◌, refl, sym, inl, inr, true, some, List, [], ◌∷◌, ◌++◌, append-nil,
  arith, eqb, Bool-cases, here, length, Dict, lookup,
}
use mathlib.Core.Path.{subst}
use gpt.Types.{Message}
use gpt.MessageTree.{
  Newest, visit_leaf, is_visited, unvisited, walk, total_children, build_child_map,
  find_newest_leaf,
}
use gpt.MessageTree.Leaf.{walk-ends, budget-nil}
use gpt.MessageTree.Loop.{
  children_of, IsLeaf, Closed, Bounded, IsDated, visit_leaf-IsDated, Below, root, child,
}
use gpt.MessageTree.Round.{
  Ends, Ends-skipped, Ends-visited, Closed-skipped, Closed-visited, Bounded-leaf, Bounded-inner,
  unvisited-nil, append_nil,
}

walk-Ends :
    (messages : Dict Message) (children : Dict (List Message)) (fuel : ℕ)
    (queue visited : List String) (best end : Newest)
    → walk messages children fuel queue visited best ≡ some end
    → Closed children queue visited
    → Bounded messages children visited best
    → IsDated messages best
    → Ends messages children queue visited end
unfolding walk
walk-Ends messages children fuel [] visited best end e closed bounded dated =
    let same : best ≡ end = cc in
    rw⁻¹ same
      (visited, closed, bounded, dated, λ v held. elim held [ inl h ↦ h | inr i ↦ elim i [ ] ])
walk-Ends messages children zero (id ∷ queue) visited best end e closed bounded dated = cc
walk-Ends messages children (suc fuel) (id ∷ queue) visited best end e closed bounded dated =
    let below = children_of children id in
    elim (Bool-cases (is_visited id visited)) [
      | inl t ↦
          let e' : walk messages children fuel queue visited best ≡ some end = rw t at e in
          Ends-skipped messages children id queue visited end t (
            walk-Ends messages children fuel queue visited best end e'
              (Closed-skipped children id queue visited t closed) bounded dated)
      | inr f ↦ elim (Bool-cases (eqb (length below) 0)) [
        | inl leaf ↦
            let e' : walk messages children fuel queue (id ∷ visited) (visit_leaf messages id best)
                ≡ some end =
              rw (f, leaf) at e in
            let none_new = unvisited-nil (id ∷ visited) below leaf in
            let closed' : Closed children queue (id ∷ visited) =
              subst (λ q. Closed children q (id ∷ visited))
                (append_nil queue (unvisited (id ∷ visited) below) none_new)
                (Closed-visited children id queue visited closed) in
            Ends-visited messages children id queue [] visited end (
              subst (λ q. Ends messages children q (id ∷ visited) end) (sym (append-nil queue))
                (walk-Ends messages children fuel queue (id ∷ visited) (visit_leaf messages id best)
                  end e' closed' (Bounded-leaf messages children id visited best bounded)
                  (visit_leaf-IsDated messages id best dated)))
        | inr inner ↦
            let e' : walk messages children fuel (queue ++ unvisited (id ∷ visited) below)
                  (id ∷ visited) best
                ≡ some end =
              rw (f, inner) at e in
            Ends-visited messages children id queue (unvisited (id ∷ visited) below) visited end (
              walk-Ends messages children fuel (queue ++ unvisited (id ∷ visited) below)
                (id ∷ visited) best end e' (Closed-visited children id queue visited closed)
                (Bounded-inner messages children id visited best inner bounded) dated)
      ]
    ]

Below-final :
    (children : Dict (List Message)) (start : String) (final : List String) {x : String}
    → Closed children [] final
    → is_visited start final ≡ true
    → Below children start x
    → is_visited x final ≡ true
unfolding Closed
Below-final children start final closed held (root) = held
Below-final children start final closed held (child {id} {m} b i) =
    elim (closed id m (Below-final children start final closed held b) i) [
      | inl t ↦ t
      | inr j ↦ elim j [ ]
    ]

-- For a start that is a message, the search ends, and it finds a message of the chat that no leaf below
-- the start, however deep, is newer than.
pub find_newest_leaf-maximal :
    (messages : Dict Message) (start_id x : String) (start m : Message)
    → lookup start_id messages ≡ some start
    → Below (build_child_map messages) start_id x
    → IsLeaf messages (build_child_map messages) x m
    → (leaf_id : String) × (leaf : Message) × (find_newest_leaf messages start_id ≡ some leaf_id)
      × (lookup leaf_id messages ≡ some leaf)
      × (m.created_at ≤ leaf.created_at)
unfolding find_newest_leaf Closed Bounded
find_newest_leaf-maximal messages start_id x start m held below is_leaf =
    let children = build_child_map messages in
    let best : Newest = record { newest_leaf_id = start_id; newest_time = some start.created_at } in
    let (end, ends) =
      walk-ends messages children (suc (total_children children)) (start_id ∷ []) [] best
        (omega (arith, budget-nil children)) in
    let (final, closed, bounded, (leaf, found, dated), all) =
      walk-Ends messages children (suc (total_children children)) (start_id ∷ []) [] best end ends
        (λ v c h i. cc) (λ v m h l. cc) (start, held, refl) in
    let (t, at_, late) =
      bounded x m (Below-final children start_id final closed (all start_id (inr here)) below)
        is_leaf in
    (
      end.newest_leaf_id,
      leaf,
      rw (held, find_newest_leaf) (rw ends refl),
      found,
      ground (arith, at_, dated, late),
    )
