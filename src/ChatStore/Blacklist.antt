-- ===== src/ChatStore/Blacklist.antt =====
-- webSocket/error.ts and node/pick.ts together: a node whose stream failed. Its entry is in the store
-- of the chats, so that `resetChat` takes it away.
use gpt.Prelude.{ℕ, ◌+◌, ◌<◌, String, ◌≡◌, ◌∙◌, ◌≢◌, true, Option, some, lookup}
use gpt.ChatStore.State.{ChatState, World}
use gpt.ChatStore.WebSocket.Failure.{handle_web_socket_error, blacklist_duration_ms}
use gpt.ChatStore.WebSocket.Failure.Effects.{handle_web_socket_error-blacklist}
use gpt.ChatStore.Nodes.Pick.{NodeChoice, pick_node_for_model}
use gpt.ChatStore.Nodes.Pick.Choice.{pick-skips}

abbrev pub entry : String → ChatState → Option ℕ
entry node_id s = lookup node_id s.temporary_node_blacklist

-- After a connection to a node has failed, the node is not picked for any model, whatever the draw,
-- until ten minutes have passed, from any later store in which the entry that the failure wrote is
-- still there.
pub failed_node-rests :
    (now later : ℕ) (draw : ℕ → ℕ) (chat_id job_id message node_id model_id : String) (w : World)
    (u : ChatState) (c : NodeChoice)
    → later < now + blacklist_duration_ms
    → entry node_id u
      ≡ entry node_id
          (handle_web_socket_error now chat_id job_id message true (some node_id) w).store
    → pick_node_for_model later draw model_id u ≡ some c
    → c.node_id ≢ node_id
failed_node-rests now later draw chat_id job_id message node_id model_id w u c early kept picked =
    pick-skips later draw model_id node_id u (now + blacklist_duration_ms) c
      (kept ∙ handle_web_socket_error-blacklist now chat_id job_id message node_id w) early picked
