-- ===== src/ChatStore/Tests/Nodes.antt =====
-- The theorems on nodes at two nodes, one of which is on the blacklist.
use gpt.Prelude.{
  ◌≡◌, refl, true, none, some, List, [], ◌∷◌, ok, err, here, lookup, insert, is_space, trim_start,
  trim_end, trim,
}
use gpt.Types.{PublicNodeInfo}
use gpt.ChatStore.State.{ChatState, ReconciledNode, Call}
use gpt.ChatStore.Nodes.Reconcile.{
  reconcile, reconcile_with, reconcile_node, node_map, matched, add_node,
}
use gpt.ChatStore.Nodes.Reconcile.Agreement.{Agreed, reconcile-Agreed}
use gpt.ChatStore.Nodes.Create.{NodeForm, node_params}
use gpt.ChatStore.Tests.{ready, store, answers}

abbrev resting : ReconciledNode
resting = record {
  node_id = "n";
  address = "a1";
  model_id = "m";
  principal = "p1";
  public_key = none;
}

abbrev pub serving : ReconciledNode
serving = record {
  node_id = "o";
  address = "a2";
  model_id = "m";
  principal = "p2";
  public_key = some "k";
}

abbrev picking : ChatState
picking = record store {
  reconciled_active_nodes = resting ∷ serving ∷ [];
  temporary_node_blacklist = ("n", 100) ∷ [];
}

abbrev entry : PublicNodeInfo
entry = record {
  node_id = "o";
  owner = "me";
  node_principal = some "p2";
  hostname = "old";
  model_id = "m";
  is_active = true;
  public_key = some "k";
}

abbrev own : PublicNodeInfo
own = record entry { hostname = "a2" }

reconcile-Agreed_example : Agreed (entry ∷ []) (own ∷ []) serving
unfolding reconcile reconcile_with reconcile_node node_map matched add_node lookup insert
reconcile-Agreed_example = reconcile-Agreed (entry ∷ []) (own ∷ []) serving here

abbrev offline : Call (List PublicNodeInfo)
offline = answers (err "offline")

abbrev form : NodeForm
form = record {
  hostname = " node.example ";
  model_id = "m";
  api_key = "key";
  chip_id = "0a ";
  host_identity = "age1xyz";
}

checked :
    node_params (λ s. s) (λ identity key. ok "c2VjcmV0") ready form
    ≡ ok (record {
      hostname = "node.example";
      model_id = "m";
      encrypted_api_key = "c2VjcmV0";
      expected_chip_id = "0a";
    })
unfolding node_params trim trim_start trim_end is_space
checked = refl
