-- ===== src/MessageTree/Leaf.antt =====
-- The search for the newest leaf: it ends, and what it finds.
use gpt.Prelude.{
  ℕ, zero, suc, ◌+◌, ◌≤◌, String, ◌≡◌, refl, inl, inr, false, some, List, [], ◌∷◌, ◌++◌, arith,
  eq_iff, eqb, if◌then◌else◌, Bool-cases, get_or, length, length-append, Dict, lookup,
}
use gpt.Types.{Message}
use gpt.MessageTree.{Newest, visit_leaf, is_visited, unvisited, walk, total_children}

-- The children that are not queued yet: those of the ids that are not visited.
pub budget : List String → Dict (List Message) → ℕ
budget visited [] = 0
budget visited ((pid, ms) ∷ rest) =
    (if is_visited pid visited then 0 else length ms) + budget visited rest

pub budget-nil : (children : Dict (List Message)) → budget [] children ≡ total_children children
unfolding budget total_children
budget-nil [] = refl
budget-nil ((pid, ms) ∷ rest) = omega (arith, budget-nil rest)

budget_mono :
    (id : String) (visited : List String) (children : Dict (List Message))
    → budget (id ∷ visited) children ≤ budget visited children
unfolding budget
budget_mono id visited [] = omega arith
budget_mono id visited ((pid, ms) ∷ rest) = ground (arith, budget_mono id visited rest)

-- To visit an id takes its children off the budget.
budget-visit :
    (id : String) (visited : List String) (children : Dict (List Message))
    → is_visited id visited ≡ false
    → budget (id ∷ visited) children + length (get_or (lookup id children) [])
      ≤ budget visited children
unfolding budget lookup
budget-visit id visited [] h = omega arith
budget-visit id visited ((pid, ms) ∷ rest) h = ground (
  arith,
  budget-visit id visited rest h,
  budget_mono id visited rest,
  eq_iff pid id,
  eq_iff id pid,
)

length-unvisited :
    (visited : List String) (ms : List Message) → length (unvisited visited ms) ≤ length ms
unfolding unvisited
length-unvisited visited [] = omega arith
length-unvisited visited (m ∷ ms) = ground (arith, length-unvisited visited ms)

-- The loop ends if there is a round for each queued id and for each child that is still to be queued.
pub walk-ends :
    (messages : Dict Message) (children : Dict (List Message)) (fuel : ℕ)
    (queue visited : List String) (best : Newest)
    → length queue + budget visited children ≤ fuel
    → (end : Newest) × (walk messages children fuel queue visited best ≡ some end)
unfolding walk
walk-ends messages children fuel [] visited best h = (best, refl)
walk-ends messages children zero (id ∷ queue) visited best h = absurd (omega arith)
walk-ends messages children (suc fuel) (id ∷ queue) visited best h =
    elim (Bool-cases (is_visited id visited)) [
      | inl t ↦ rw t (walk-ends messages children fuel queue visited best (omega arith))
      | inr f ↦
          let below = get_or (lookup id children) [] in
          let spent = budget-visit id visited children f in
          elim (Bool-cases (eqb (length below) 0)) [
            | inl e ↦
                rw (f, e)
                  (walk-ends messages children fuel queue (id ∷ visited)
                    (visit_leaf messages id best) (omega (arith, spent)))
            | inr e ↦
                rw (f, e)
                  (walk-ends messages children fuel (queue ++ unvisited (id ∷ visited) below)
                    (id ∷ visited) best
                    (omega (
                      arith,
                      spent,
                      length-unvisited (id ∷ visited) below,
                      length-append queue (unvisited (id ∷ visited) below),
                    )))
          ]
    ]
