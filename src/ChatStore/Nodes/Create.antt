-- ===== src/ChatStore/Nodes/Create.antt =====
-- node/create.ts: a new node. `lower` is the language's `toLowerCase`, `encrypt` the encryption of a
-- key for an identity, in base 64.
use gpt.Prelude.{
  String, true, not, ◌&&◌, ◌||◌, List, Result, ok, err, ◌^^◌, is_empty, starts_with, trim, ◌>>=◌,
  ◌>>◌, ensure,
}
use gpt.Types.{PublicNodeInfo}
use gpt.ChatStore.State.{Access, Call, ChatState}
use gpt.ChatStore.Nodes.Fetch.{clear_node_cache, fetch_all_active_nodes_auth, fetch_my_nodes_auth}

-- What `IndexApi.createNode` is given.
pub record NodeParams : Type 0 where
  pub hostname : String
  pub model_id : String
  pub encrypted_api_key : String
  pub expected_chip_id : String

-- What the form has.
pub record NodeForm : Type 0 where
  pub hostname : String
  pub model_id : String
  pub api_key : String
  pub chip_id : String
  pub host_identity : String

module _ (lower : String → String) (encrypt : String → String → Result String) where
  -- The checks, and the key encrypted for the host.
  unfoldable pub node_params : Access → NodeForm → Result NodeParams
  node_params access f = do
    ensure (access.registered && access.has_client) "User must be registered to create a node."
    let hostname = trim f.hostname
    let chip_id = lower (trim f.chip_id)
    ensure
        (not (
          is_empty hostname
          || is_empty f.model_id
          || is_empty (trim f.api_key)
          || is_empty chip_id))
        "Missing required fields."
    ensure (starts_with (trim f.host_identity) "age1") "Invalid Host Identity."
    key ← elim (encrypt (trim f.host_identity) (trim f.api_key)) [
      | ok k ↦ ok k
      | err e ↦ err ("Encryption failed: " ^^ e)
    ]
    ok (record {
      hostname = hostname;
      model_id = f.model_id;
      encrypted_api_key = key;
      expected_chip_id = chip_id;
    })

  -- After the call the lists of nodes are forgotten and fetched again. `meanwhile` is what other actions
  -- do before its answer; the two fetches write different fields.
  unfoldable pub create_node :
      Access
      → (NodeParams → Result (Unit {0}))
      → (ChatState → ChatState)
      → Call (List PublicNodeInfo)
      → Call (List PublicNodeInfo)
      → NodeForm
      → ChatState
      → ChatState × Result (Unit {0})
  create_node access create meanwhile mine all f s = elim (node_params access f) [
    | err e ↦ (s, err e)
    | ok params ↦ elim (create params) [
      | err e ↦ (meanwhile s, err e)
      | ok _ ↦ (
        fetch_all_active_nodes_auth true all
            (fetch_my_nodes_auth true access mine (clear_node_cache (meanwhile s))),
        ok tt,
      )
    ]
  ]
