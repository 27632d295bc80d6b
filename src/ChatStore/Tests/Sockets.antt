-- ===== src/ChatStore/Tests/Sockets.antt =====
-- The theorems on streams at a chat whose job streams.
use gpt.Prelude.{
  String, ◌≡◌, refl, ◌≢◌, true, false, none, some, [], ◌∷◌, arith, ◌==◌, if◌then◌else◌, is_some,
  Result, ok, err, lookup, insert, remove, includes, drop_text, strip_prefix, is_space, trim_start,
  trim_end, trim,
}
use gpt.Mappers.ErrorStatus.{BackendErrorStatus}
use gpt.ChatStore.State.{ChatState, World, is_live}
use gpt.ChatStore.WebSocket.Url.{build_web_socket_url, enforce_wss, default_to_wss, strip_http}
use gpt.ChatStore.WebSocket.Url.Security.{IsSecure, build_web_socket_url-IsSecure}
use gpt.ChatStore.WebSocket.Find.{find_target_message_details, find_in_map}
use gpt.ChatStore.WebSocket.Failure.{
  handle_web_socket_error, mark_errored, blacklist_node, settle_ocr, set_errored, errored_message,
}
use gpt.ChatStore.WebSocket.Handler.{
  StreamedResponse, new_handler, apply_packet, process_batched_update, on_message,
}
use gpt.ChatStore.WebSocket.Handler.Batching.{on_messages, process-on_messages}
use gpt.ChatStore.WebSocket.Handler.Streams.{apply_packet-idle}
use gpt.ChatStore.WebSocket.Connection.{
  connect_to_chain_web_socket, closed_socket, on_close, is_generating_chat,
}
use gpt.ChatStore.WebSocket.Connection.Lifetime.{Connected, connect-Connected, closed_socket-idle}
use gpt.ChatStore.Setters.Status.{set_flags, set_active_chat_job}
use gpt.ChatStore.Nodes.Pick.{is_suitable, is_blacklisted, choose, pick_node_for_model}
use gpt.ChatStore.Blacklist.{failed_node-rests}
use gpt.ChatStore.Tests.{store, world, ready}

abbrev last_packet : StreamedResponse
last_packet = record { text = "Hello!"; is_complete = true; error_status = none; usage = none }

abbrev decode : String → Result StreamedResponse
decode packet = if packet == "" then err "empty" else ok (record last_packet { text = packet })

abbrev stringify : BackendErrorStatus → String
stringify e = "error"

apply_packet-idle_example :
    let v = apply_packet decode stringify "c" "j" 0 30 last_packet world in
    (lookup "c" v.store.is_generating ≡ some false)
    × (lookup "c" v.store.is_ai_typing ≡ some false)
    × (lookup "c" v.store.is_waiting ≡ some false)
    × (lookup "c" v.store.active_chat_jobs ≡ (
        if is_some last_packet.error_status
        then some (record { job_id = "j"; errored_via_stream = some true })
        else none))
    × (is_live (v.sockets 0) ≡ false)
    × (lookup "j" v.store.ocr_promises ≡ none)
apply_packet-idle_example = apply_packet-idle decode stringify "c" "j" 0 30 last_packet world refl

process-on_messages_example :
    let after = process_batched_update decode stringify "c" "j" 0 40 (
      on_message decode stringify "c" "j" 0 30 7 "Hello"
        (on_messages decode stringify "c" "j" 0 30 7 ("H" ∷ "He" ∷ []) (new_handler, world))) in
    (after.1
      ≡ apply_packet decode stringify "c" "j" 0 40 (record last_packet { text = "Hello" }) world)
    × (after.0.latest_message_data ≡ none)
process-on_messages_example =
    process-on_messages decode stringify "c" "j" 0 30 7 40 ("H" ∷ "He" ∷ []) "Hello"
      (record last_packet { text = "Hello" }) (new_handler, world)
      ((record last_packet { text = "H" }, refl), ((record last_packet { text = "He" }, refl), tt))
      refl

build_web_socket_url-IsSecure_example : IsSecure "wss://node.example"
unfolding build_web_socket_url enforce_wss default_to_wss strip_http trim trim_start trim_end
    is_space drop_text strip_prefix includes
build_web_socket_url-IsSecure_example =
    build_web_socket_url-IsSecure "https://node.example" "wss://node.example" refl

closed_socket-idle_example :
    let (h, w) = closed_socket decode stringify "c" "j" "n" 0 50 "gone" (new_handler, world) in
    (is_generating_chat "c" w.store ≡ false)
    × (lookup "j"
          (on_close decode stringify "c" "j" "n" 0 50 (new_handler, world)).0.1.store.web_sockets
        ≡ none)
closed_socket-idle_example =
    closed_socket-idle decode stringify "c" "j" "n" 0 50 "gone" (new_handler, world)

connect-Connected_example : Connected "c" "j" (
    connect_to_chain_web_socket 60 ready true
      (λ salt. ok tt)
      (λ url. ok tt)
      "c"
      "j"
      (some "node.example")
      (some "n")
      (some "key")
      none
      world)
connect-Connected_example =
    connect-Connected 60 ready true (λ salt. ok tt) (λ url. ok tt) "c" "j" (some "node.example")
      (some "n") (some "key") none world

abbrev two_nodes : World
two_nodes = record world {
  store = record store {
    reconciled_active_nodes =
        record {
          node_id = "n";
          address = "a1";
          model_id = "m";
          principal = "p1";
          public_key = none;
        }
        ∷ record {
          node_id = "o";
          address = "a2";
          model_id = "m";
          principal = "p2";
          public_key = none;
        }
        ∷ [];
  };
}

-- Later, and with an input.
abbrev after_failure : ChatState
after_failure = record (two_nodes.store) {
  temporary_node_blacklist = ("n", 600030) ∷ [];
  input = "again";
}

failed_node-rests_example : ◌≢◌ {A = String} "o" "n"
unfolding pick_node_for_model is_suitable is_blacklisted choose handle_web_socket_error mark_errored
    blacklist_node settle_ocr set_flags set_active_chat_job insert lookup set_errored
    find_target_message_details find_in_map errored_message remove
failed_node-rests_example =
    failed_node-rests 30 40 (λ k. 0) "c" "j" "lost" "n" "m" two_nodes after_failure
      (record { address = "a2"; node_id = "o"; public_key = none }) (omega arith) refl refl
