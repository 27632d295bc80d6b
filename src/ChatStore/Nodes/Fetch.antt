-- ===== src/ChatStore/Nodes/Fetch.antt =====
-- node/fetch.ts, node/details.ts and node/reconnect.ts: the lists of nodes, the details of one, and
-- the way back to a running job.
pub mod Lists
use gpt.Prelude.{
  String, Bool, true, false, not, ◌&&◌, ◌||◌, Option, none, some, List, [], ◌==◌, if◌then◌else◌,
  is_some, and_then, Result, ok, err, find?, has, is_empty,
}
use gpt.Types.{PublicNodeInfo, Job}
use gpt.ChatStore.State.{ChatState, Access, is_ready, Call}
use gpt.ChatStore.Setters.Status.{set_is_generating, set_is_ai_typing, set_is_waiting}

pub fetch_my_nodes_auth : Bool → Access → Call (List PublicNodeInfo) → ChatState → ChatState
fetch_my_nodes_auth force access nodes s =
    if (not force && s.my_nodes_loading) || not (access.registered && access.has_client)
    then s
    else let started =
        if not s.has_fetched_my_nodes || force then record s { my_nodes_loading = true } else s in
      let resumed = nodes.meanwhile started in
      elim nodes.answer [
        | err _ ↦ record resumed { my_nodes_loading = false }
        | ok list ↦ record resumed {
          my_nodes = list;
          has_fetched_my_nodes = true;
          my_nodes_loading = false;
        }
      ]

pub fetch_all_active_nodes_auth : Bool → Call (List PublicNodeInfo) → ChatState → ChatState
fetch_all_active_nodes_auth force nodes s =
    if not force && s.all_nodes_loading
    then s
    else let started =
        if not s.has_fetched_all_nodes || force then record s { all_nodes_loading = true } else s in
      let resumed = nodes.meanwhile started in
      elim nodes.answer [
        | err _ ↦ record resumed { all_nodes_loading = false }
        | ok list ↦ record resumed {
          all_nodes = list;
          has_fetched_all_nodes = true;
          all_nodes_loading = false;
        }
      ]

pub clear_node_cache : ChatState → ChatState
clear_node_cache s = record s {
  my_nodes = [];
  all_nodes = [];
  has_fetched_my_nodes = false;
  has_fetched_all_nodes = false;
}

pub record NodeDetails : Type 0 where
  pub address : String
  pub node_id : String
  pub public_key : String

-- A node without a principal or a public key is as good as none.
details_of : PublicNodeInfo → Option NodeDetails
details_of n =
    if is_some n.node_principal
    then and_then n.public_key (λ key.
      if is_empty key
      then none
      else some (record { address = n.hostname; node_id = n.node_id; public_key = key }))
    else none

pub get_node_details : Access → Result (List PublicNodeInfo) → String → Option NodeDetails
unfolding details_of
get_node_details access nodes node_id =
    if is_ready access
    then elim nodes [
      | err _ ↦ none
      | ok list ↦ and_then (find? (λ n. n.node_id == node_id) list) details_of
    ]
    else none

pub get_chat_job_details : Access → Result (List Job) → String → Option Job
get_chat_job_details access jobs job_id =
    if is_ready access
    then elim jobs [ err _ ↦ none | ok list ↦ find? (λ j. j.job_id == job_id) list ]
    else none

abbrev set_all_flags : String → Bool → ChatState → ChatState
set_all_flags chat_id flag s =
    set_is_waiting chat_id flag (set_is_ai_typing chat_id flag (set_is_generating chat_id flag s))

-- `connect` is `connectToChainWebSocket` for the address, the id and the key of the job's node; it
-- reports its failures itself.
pub reconnect_to_active_job :
    Access
    → Result (List Job)
    → (String → Result (List PublicNodeInfo))
    → (NodeDetails → ChatState → ChatState)
    → (ChatState → ChatState)
    → String
    → String
    → ChatState
    → ChatState
reconnect_to_active_job access jobs nodes connect meanwhile chat_id job_id s =
    if has job_id s.web_sockets
    then s
    else let resumed = meanwhile (set_all_flags chat_id true s) in
      let node =
        and_then (get_chat_job_details access jobs job_id)
          (λ j. get_node_details access (nodes j.node_id) j.node_id) in
      elim node [ none ↦ set_all_flags chat_id false resumed | some d ↦ connect d resumed ]
