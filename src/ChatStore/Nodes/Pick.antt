-- ===== src/ChatStore/Nodes/Pick.antt =====
-- node/pick.ts: a node for a model, at random among those that are not on the blacklist.
pub mod Choice
use gpt.Prelude.{
  ℕ, String, Bool, false, not, ◌&&◌, Option, none, some, ◌==◌, eqb, ltb, and_then, length, filter,
  get_elem?, Dict, lookup,
}
use gpt.ChatStore.State.{ChatState, ReconciledNode}

pub record NodeChoice : Type 0 where
  pub address : String
  pub node_id : String
  pub public_key : Option String

-- `expiry && now < expiry`
unfoldable pub is_blacklisted : ℕ → Dict ℕ → String → Bool
is_blacklisted now blacklist node_id = elim (lookup node_id blacklist) [
  | none ↦ false
  | some expiry ↦ not (eqb expiry 0) && ltb now expiry
]

unfoldable pub is_suitable : ℕ → Dict ℕ → String → ReconciledNode → Bool
is_suitable now blacklist model_id n =
    n.model_id == model_id && not (is_blacklisted now blacklist n.node_id)

unfoldable pub choose : ReconciledNode → NodeChoice
choose n = record { address = n.address; node_id = n.node_id; public_key = n.public_key }

-- `draw n` is `Math.floor(Math.random() * n)`.
unfoldable pub pick_node_for_model : ℕ → (ℕ → ℕ) → String → ChatState → Option NodeChoice
unfolding choose
pick_node_for_model now draw model_id s =
    let suitable =
      filter (is_suitable now s.temporary_node_blacklist model_id) s.reconciled_active_nodes in
    and_then (get_elem? suitable (draw (length suitable))) (λ n. some (choose n))
