-- ===== src/ChatStore/Nodes/Pick/Choice.antt =====
-- What is chosen, and when.
use gpt.Prelude.{
  In-length, ℕ, ◌<◌, String, ◌≡◌, refl, sym, ap, ◌∙◌, ◌≢◌, true, false, Option, none, some, arith,
  eq_iff, eq_refl, and_then, In, length, filter, get_elem?, filter-In, In-filter, get_elem?-In,
  get_elem?-lt, Dict, lookup,
}
use gpt.ChatStore.State.{ChatState, ReconciledNode}
use gpt.ChatStore.Nodes.Pick.{NodeChoice, is_blacklisted, is_suitable, choose, pick_node_for_model}

and_then-some :
    {A B : Type 0} (o : Option A) (f : A → B) (b : B)
    → and_then o (λ a. some (f a)) ≡ some b
    → (a : A) × (o ≡ some a) × (f a ≡ b)
and_then-some none f b e = cc
and_then-some (some a) f b e = (a, refl, cc)

suitable_parts :
    (now : ℕ) (blacklist : Dict ℕ) (model_id : String) (n : ReconciledNode)
    → is_suitable now blacklist model_id n ≡ true
    → (n.model_id ≡ model_id) × (is_blacklisted now blacklist n.node_id ≡ false)
unfolding is_suitable
suitable_parts now blacklist model_id n h = ground (arith, eq_iff n.model_id model_id)

-- A node that is picked is one of the reconciled nodes, serves the model, and is not blacklisted.
pub pick-suitable :
    (now : ℕ) (draw : ℕ → ℕ) (model_id : String) (s : ChatState) (c : NodeChoice)
    → pick_node_for_model now draw model_id s ≡ some c
    → (n : ReconciledNode) × In n s.reconciled_active_nodes
      × (n.model_id ≡ model_id)
      × (is_blacklisted now s.temporary_node_blacklist n.node_id ≡ false)
      × (c.node_id ≡ n.node_id)
      × (c.address ≡ n.address)
      × (c.public_key ≡ n.public_key)
unfolding pick_node_for_model choose
pick-suitable now draw model_id s c e =
    let p = is_suitable now s.temporary_node_blacklist model_id in
    let suitable = filter p s.reconciled_active_nodes in
    let (n, found, same) = and_then-some (get_elem? suitable (draw (length suitable))) choose c e in
    let (held, passes) =
      filter-In p s.reconciled_active_nodes
        (get_elem?-In suitable (draw (length suitable)) found) in
    let (serves, free) = suitable_parts now s.temporary_node_blacklist model_id n passes in
    (
      n,
      held,
      serves,
      free,
      ap (λ (k : NodeChoice). k.node_id) (sym same),
      ap (λ (k : NodeChoice). k.address) (sym same),
      ap (λ (k : NodeChoice). k.public_key) (sym same),
    )

-- If some node is suitable and the draw is below the number of candidates, one is picked.
pub pick-total :
    (now : ℕ) (draw : ℕ → ℕ) (model_id : String) (s : ChatState) (n : ReconciledNode)
    → ((k : ℕ) → 0 < k → draw k < k)
    → In n s.reconciled_active_nodes
    → n.model_id ≡ model_id
    → is_blacklisted now s.temporary_node_blacklist n.node_id ≡ false
    → (c : NodeChoice) × (pick_node_for_model now draw model_id s ≡ some c)
unfolding pick_node_for_model is_suitable
pick-total now draw model_id s n fair held serves free =
    let p = is_suitable now s.temporary_node_blacklist model_id in
    let suitable = filter p s.reconciled_active_nodes in
    let kept = In-filter p held (rw (serves, free, eq_refl model_id) refl) in
    let (m, found) =
      get_elem?-lt suitable (draw (length suitable)) (fair (length suitable) (In-length kept)) in
    (choose m, rw found refl)

-- A node whose blacklist entry has not run out is not picked.
pub pick-skips :
    (now : ℕ) (draw : ℕ → ℕ) (model_id node_id : String) (s : ChatState) (expiry : ℕ)
    (c : NodeChoice)
    → lookup node_id s.temporary_node_blacklist ≡ some expiry
    → now < expiry
    → pick_node_for_model now draw model_id s ≡ some c
    → c.node_id ≢ node_id
unfolding is_blacklisted
pick-skips now draw model_id node_id s expiry c listed early e same =
    let (n, _, _, free, named, _, _) = pick-suitable now draw model_id s c e in
    let listed' : lookup n.node_id s.temporary_node_blacklist ≡ some expiry =
      rw (sym named ∙ same) listed in
    ground (arith, free, listed', early)
