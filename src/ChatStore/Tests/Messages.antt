-- ===== src/ChatStore/Tests/Messages.antt =====
-- The theorems on the sending of messages: an open vault, a node that serves, and a canister that
-- answers. The chat "c" has one message.
use gpt.Prelude.{
  String, ◌≡◌, refl, ◌⊎◌, true, false, none, some, [], ◌∷◌, ◌==◌, ok, err, lookup, insert,
  trim_start, trim_end, trim,
}
use gpt.ChatStore.State.{World, set_state}
use gpt.ChatStore.Nodes.Pick.{NodeChoice, choose, is_blacklisted, is_suitable, pick_node_for_model}
use gpt.ChatStore.Setters.Status.{set_is_ai_typing, set_is_generating, set_is_waiting}
use gpt.ChatStore.Messages.{Env, Ids, choose_node, connect, transform_attachments_for_backend}
use gpt.ChatStore.Messages.Add.{Target, add_target, add_message_to_existing_chat}
use gpt.ChatStore.Messages.Add.Sent.{AddRefused, AddTaken, AllFlags, IsAdded, add_message-Sent}
use gpt.ChatStore.Messages.Create.{
  CreateParams, NewChat, create_target, create_new_chat_with_first_message,
}
use gpt.ChatStore.Messages.Create.Created.{
  CreateRefused, CreateTaken, IsCreated, create_new_chat-Created,
}
use gpt.ChatStore.Messages.Edit.{edit_target, edit_user_message, retry_ai_message, retry_target}
use gpt.ChatStore.Messages.Edit.Branches.{
  EditRefused, EditTaken, IsEdited, edit_user_message-IsEdited,
}
use gpt.ChatStore.Messages.Edit.Retries.{
  IsRetried, RetryRefused, RetryTaken, retry_ai_message-IsRetried,
}
use gpt.ChatStore.Messages.Send.{mark_busy, send_message}
use gpt.ChatStore.Messages.Send.Stuck.{send_message-stuck}
use gpt.ChatStore.Tests.{chat, model, ready, store, world}
use gpt.ChatStore.Tests.Nodes.{serving}

abbrev pub env : Env
env = record {
  access = ready;
  has_root_key = true;
  picked_at = 50;
  now = 60;
  draw = λ _. 0;
  read = λ a. ok (record { mime_type = "image/png"; content = 1 ∷ [] });
  derive_key = λ _. ok tt;
  encrypt = λ _. ok (7 ∷ []);
  wrap = λ k. ok k;
  compile = λ m. m.name;
  construct = λ _. ok tt;
  meanwhile = λ w. w;
}

abbrev pub idle_world : World
idle_world = record world {
  store = record store {
    reconciled_active_nodes = serving ∷ [];
    is_generating = [];
    input = " What? ";
  };
}

abbrev ids : Ids
ids = record { user_message_id = "q2"; ai_message_id = "a2"; job_id = "j2" }

abbrev node : NodeChoice
node = record { address = "a2"; node_id = "o"; public_key = some "k" }

abbrev target : Target
target = record { chat_id = "c"; chat = chat; model = model; node = node; public_key = "k" }

abbrev made : NewChat
made = record { chat_id = "e"; ids = ids }

-- The answers of a canister that always gives these ids are these.
apart :
    {P : Type 0} (p : P) (i : Ids) → ok ids ≡ ok i → (i.ai_message_id == i.user_message_id) ≡ false
apart p i h = let same : ids ≡ i = cc in rw⁻¹ same refl

add_message-Sent_example :
    let (v, answer) = add_message_to_existing_chat env (λ _. ok ids) idle_world in
    let before = idle_world.store in
    ((i : Ids) × (opened : World) × AddTaken env (λ _. ok ids) target [] idle_world.store i
      × (answer ≡ ok "c")
      × (v ≡ connect env "c" i.job_id node opened)
      × IsAdded "c" (trim " What? ") i idle_world.store before opened.store)
    ⊎ ((e : String) × AddRefused env (λ _. ok ids) target [] idle_world.store e
        × (answer ≡ err e)
        × AllFlags "c" false v.store
        × (v.store.chats ≡ before.chats)
        × (v.store.messages ≡ before.messages)
        × (v.store.input ≡ before.input))
unfolding add_target choose_node pick_node_for_model choose is_suitable is_blacklisted
    transform_attachments_for_backend lookup
add_message-Sent_example = add_message-Sent env (λ _. ok ids) idle_world target [] refl refl apart

fresh :
    (p : CreateParams) (n : NewChat)
    → ok made ≡ ok n
    → ((n.ids.user_message_id == n.ids.ai_message_id) ≡ false) × ((n.chat_id == "new") ≡ false)
fresh p n h = let same : made ≡ n = cc in rw⁻¹ same (refl, refl)

create_new_chat-Created_example :
    let (v, answer, title) =
      create_new_chat_with_first_message env (9 ∷ []) (some "me") (λ _. ok made) idle_world in
    let before = idle_world.store in
    ((n : NewChat) × (opened : World) × CreateTaken env
        (9 ∷ [])
        (some "me")
        (λ _. ok made)
        model
        node
        "k"
        []
        idle_world.store
        n
      × (answer ≡ ok n.chat_id)
      × (v ≡ connect env n.chat_id n.ids.job_id node opened)
      × IsCreated (9 ∷ []) n idle_world.store before opened.store)
    ⊎ ((e : String) × CreateRefused env
          (9 ∷ [])
          (some "me")
          (λ _. ok made)
          model
          node
          "k"
          []
          idle_world.store
          e
        × (answer ≡ err e)
        × (title ≡ none)
        × AllFlags "new" false v.store
        × (v.store.chats ≡ before.chats)
        × (v.store.messages ≡ before.messages)
        × (v.store.input ≡ before.input))
unfolding create_target choose_node pick_node_for_model choose is_suitable is_blacklisted
    transform_attachments_for_backend lookup
create_new_chat-Created_example =
    create_new_chat-Created env (9 ∷ []) (some "me") (λ _. ok made) idle_world model node "k" []
      refl refl fresh

edit_user_message-IsEdited_example :
    let v = edit_user_message env (λ _. ok ids) "c" "q" "What else?" idle_world in
    let before = (set_state (set_is_generating "c" true) idle_world).store in
    ((i : Ids) × (n : NodeChoice) × (opened : World) × EditTaken env
        (λ _. ok ids)
        "c"
        "q"
        "What else?"
        chat
        model
        before
        n
        i
      × (v ≡ connect env "c" i.job_id n opened)
      × IsEdited "c" "q" "What else?" i idle_world.store before opened.store)
    ⊎ (EditRefused env (λ _. ok ids) "c" "q" "What else?" chat model before
        × (lookup "c" v.store.is_generating ≡ some false)
        × (v.store.chats ≡ before.chats)
        × (v.store.messages ≡ before.messages))
unfolding edit_target trim trim_start trim_end
edit_user_message-IsEdited_example =
    edit_user_message-IsEdited env (λ _. ok ids) "c" "q" "What else?" idle_world chat model refl
      apart

retry_ai_message-IsRetried_example :
    let v = retry_ai_message env (λ _. ok ids) "c" "q" idle_world in
    let before = set_state (set_is_generating "c" true) idle_world in
    ((i : Ids) × (n : NodeChoice) × (opened : World) × RetryTaken env
        (λ _. ok ids)
        "c"
        "q"
        chat
        model
        before.store
        n
        i
      × (v ≡ connect env "c" i.job_id n opened)
      × IsRetried "c" "q" i before.store opened.store)
    ⊎ (RetryRefused env (λ _. ok ids) "c" "q" chat model before.store
        × (v ≡ set_state (set_is_generating "c" false) before))
unfolding retry_target
retry_ai_message-IsRetried_example =
    retry_ai_message-IsRetried env (λ _. ok ids) "c" "q" idle_world chat model refl

-- No node serves the model; then one does.
abbrev no_nodes : World
no_nodes = record world { store = record store { is_generating = []; input = " What? " } }

abbrev refused : String
refused = "No active nodes available for model: M."

send_message-stuck_example :
    ((send_message env [] none (λ _. ok ids) (λ _. ok made) no_nodes).1 ≡ err refused)
    × (send_message env [] none
          (λ _. ok ids)
          (λ _. ok made)
          (set_state (set_is_generating "c" true) idle_world)
        ≡ (set_state (set_is_generating "c" true) idle_world, ok none, none))
unfolding send_message mark_busy set_is_generating add_target choose_node pick_node_for_model
    is_suitable is_blacklisted add_message_to_existing_chat lookup insert set_is_ai_typing
    set_is_waiting
send_message-stuck_example =
    send_message-stuck [] none (λ _. ok ids) (λ _. ok made) env no_nodes (some "c") refused env
      (set_state (set_is_generating "c" true) idle_world) refl refl refl refl refl
