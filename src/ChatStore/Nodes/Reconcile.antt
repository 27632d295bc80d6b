-- ===== src/ChatStore/Nodes/Reconcile.antt =====
-- node/reconcile.ts: the nodes on which the index and the user's canister agree. A principal is its
-- text.
pub mod Agreement
use gpt.Prelude.{
  String, true, false, Option, none, some, List, [], ◌∷◌, eqb, if◌then◌else◌, and_then, is_text, ok,
  err, length, Dict, lookup, insert,
}
use gpt.Types.{PublicNodeInfo}
use gpt.ChatStore.State.{ChatState, ReconciledNode, Access, is_ready, Call}

-- `new Map(userNodes.map((node) => [node.nodeId, node]))`
unfoldable pub node_map : Dict PublicNodeInfo → List PublicNodeInfo → Dict PublicNodeInfo
node_map m [] = m
node_map m (n ∷ ns) = node_map (insert n.node_id n m) ns

-- The node that one entry of the index gives, if any.
unfoldable pub matched : PublicNodeInfo → String → Option PublicNodeInfo → Option ReconciledNode
matched i principal none = none
matched i principal (some u) =
    if is_text u.node_principal principal
    then some (record {
      node_id = i.node_id;
      address = u.hostname;
      model_id = i.model_id;
      principal = principal;
      public_key = i.public_key;
    })
    else none

unfoldable pub reconcile_node : Dict PublicNodeInfo → PublicNodeInfo → Option ReconciledNode
reconcile_node users i =
    if i.is_active
    then and_then i.node_principal (λ p. matched i p (lookup i.node_id users))
    else none

unfoldable pub add_node : Option ReconciledNode → List ReconciledNode → List ReconciledNode
add_node none ns = ns
add_node (some n) ns = n ∷ ns

unfoldable pub reconcile_with : Dict PublicNodeInfo → List PublicNodeInfo → List ReconciledNode
reconcile_with users [] = []
reconcile_with users (i ∷ is) = add_node (reconcile_node users i) (reconcile_with users is)

unfoldable pub reconcile : List PublicNodeInfo → List PublicNodeInfo → List ReconciledNode
unfolding node_map
reconcile index_nodes user_nodes = reconcile_with (node_map [] user_nodes) index_nodes

stop_loading : ChatState → ChatState
stop_loading s = record s { reconciled_nodes_loading = false }

after_user_nodes : List PublicNodeInfo → Call (List PublicNodeInfo) → ChatState → ChatState
unfolding stop_loading
after_user_nodes index_nodes users s = elim users.answer [
  | err _ ↦ stop_loading (users.meanwhile s)
  | ok user_nodes ↦ record (users.meanwhile s) {
    reconciled_active_nodes = reconcile index_nodes user_nodes;
    reconciled_nodes_loading = false;
  }
]

after_index_nodes : Call (List PublicNodeInfo) → Call (List PublicNodeInfo) → ChatState → ChatState
unfolding after_user_nodes stop_loading
after_index_nodes index users s = elim index.answer [
  | err _ ↦ stop_loading (index.meanwhile s)
  | ok index_nodes ↦
      after_user_nodes index_nodes users
        (record (index.meanwhile s) { all_nodes = index_nodes; has_fetched_all_nodes = true })
]

pub fetch_and_reconcile_nodes :
    Access → Call (List PublicNodeInfo) → Call (List PublicNodeInfo) → ChatState → ChatState
unfolding after_index_nodes
fetch_and_reconcile_nodes access index users s =
    let started =
      if eqb (length s.reconciled_active_nodes) 0
      then record s { reconciled_nodes_loading = true }
      else s in
    if is_ready access
    then after_index_nodes index users started
    else record started { reconciled_active_nodes = []; reconciled_nodes_loading = false }
