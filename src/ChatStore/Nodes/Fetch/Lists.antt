-- ===== src/ChatStore/Nodes/Fetch/Lists.antt =====
-- The lists of nodes after a fetch, and a reconnection that fails.
use gpt.Prelude.{
  String, ◌≡◌, refl, ◌⊎◌, Bool, true, false, not, ◌||◌, none, some, List, arith, eq_refl, Result,
  err, lookup, has, lookup-insert,
}
use gpt.Types.{PublicNodeInfo, Job}
use gpt.ChatStore.State.{ChatState, Access, Call}
use gpt.ChatStore.Setters.Status.{set_is_generating, set_is_ai_typing, set_is_waiting}
use gpt.ChatStore.Nodes.Fetch.{
  fetch_my_nodes_auth, get_chat_job_details, NodeDetails, reconnect_to_active_job,
}

-- If a fetch of the user's nodes is due and the user is registered with a client, then however the call
-- ends, the list is no longer loading, and it counts as fetched unless the call failed.
pub fetch_my_nodes_auth-ends :
    (force : Bool) (access : Access) (nodes : Call (List PublicNodeInfo)) (s : ChatState)
    → (force || not s.my_nodes_loading) ≡ true
    → access.registered ≡ true
    → access.has_client ≡ true
    → let t = fetch_my_nodes_auth force access nodes s in
      (t.my_nodes_loading ≡ false)
      × ((t.has_fetched_my_nodes ≡ true) ⊎ ((message : String) × (nodes.answer ≡ err message)))
unfolding fetch_my_nodes_auth
fetch_my_nodes_auth-ends force access nodes s due registered client = ground arith

-- If the job has no socket and is not found, the three flags of the chat are out after the attempt to
-- reconnect.
pub reconnect-fails :
    (access : Access) (jobs : Result (List Job)) (nodes : String → Result (List PublicNodeInfo))
    (connect : NodeDetails → ChatState → ChatState) (chat_id job_id : String) (s : ChatState)
    → has job_id s.web_sockets ≡ false
    → get_chat_job_details access jobs job_id ≡ none
    → let t = reconnect_to_active_job access jobs nodes connect (λ u. u) chat_id job_id s in
      (lookup chat_id t.is_generating ≡ some false)
      × (lookup chat_id t.is_ai_typing ≡ some false)
      × (lookup chat_id t.is_waiting ≡ some false)
unfolding reconnect_to_active_job set_is_generating set_is_ai_typing set_is_waiting
reconnect-fails access jobs nodes connect chat_id job_id s no_socket no_job =
    rw (no_socket, no_job) (simp (lookup-insert, eq_refl) (refl, refl, refl))
