-- ===== src/ChatStore/Tests/Lists.antt =====
-- The theorems on the chats, their messages and the queue at a small store.
use gpt.Prelude.{
  ◌≡◌, refl, true, false, not, none, some, List, [], ◌∷◌, ok, err, filter, lookup, insert,
}
use gpt.Types.{Message, Chat, IndexingStatus, other}
use gpt.ChatStore.State.{ChatState, Call, QueuedToolCall}
use gpt.ChatStore.Chats.{delete_chat}
use gpt.ChatStore.Chats.Lists.{Forgotten, delete_chat-Forgotten}
use gpt.ChatStore.Queue.{is_current, failed_call, process_queued_tool_calls}
use gpt.ChatStore.Queue.Drain.{process-error_last}
use gpt.ChatStore.MessageData.{merge_fetched_with_local_map}
use gpt.ChatStore.MessageData.Merge.{Survives, merge-Survives}
use gpt.ChatStore.MessageData.Fetch.{Answers, fetch_messages}
use gpt.ChatStore.MessageData.Fetch.Loaded.{Agrees, fetch_messages-Agrees}
use gpt.ChatStore.Tests.{question, answer, dialogue, chat, store, ready, answers}

abbrev done : Call (Unit {0})
done = answers (ok tt)

abbrev refused : Call (Unit {0})
refused = answers (err "refused")

abbrev listed : List Chat
listed = record chat { active_job_id = none } ∷ []

delete_chat-Forgotten_example :
    Forgotten "c" (delete_chat ready done (answers (err "offline")) "c" store).0
delete_chat-Forgotten_example =
    delete_chat-Forgotten ready done (answers (err "offline")) "c" store refl refl (λ u h. h)

abbrev first : QueuedToolCall
first = record { chat_id = "c"; assistant_message_id = "q" }

abbrev second : QueuedToolCall
second = record { chat_id = "c"; assistant_message_id = "a" }

abbrev elsewhere : QueuedToolCall
elsewhere = record { chat_id = "d"; assistant_message_id = "z" }

abbrev queueing : ChatState
queueing = record store { queued_tool_calls = first ∷ elsewhere ∷ second ∷ [] }

process-error_last_example :
    let (t, started) = process_queued_tool_calls IndexingStatus.error none queueing in
    (started ≡ [])
    × (t.queued_tool_calls
        ≡ filter (λ k. not (is_current queueing.current_chat_id k)) queueing.queued_tool_calls)
    × (lookup "c" t.messages ≡ some (insert "a" (failed_call none answer) dialogue))
unfolding lookup is_current
process-error_last_example =
    process-error_last none queueing (first ∷ []) second dialogue answer refl refl refl

-- What the canister has of the answer: it is not complete, and empty.
abbrev stale : Message
stale = record answer { content = "" }

abbrev ended : Message
ended = record answer { content = "Hello!"; is_complete = some true }

merge-Survives_example :
    (r : Message) × (lookup "a"
        (merge_fetched_with_local_map (stale ∷ []) (some (("q", question) ∷ ("a", ended) ∷ [])))
      ≡ some r)
    × Survives ended r
unfolding lookup
merge-Survives_example =
    merge-Survives (stale ∷ []) (("q", question) ∷ ("a", ended) ∷ []) "a" ended (refl, (refl, tt))
      refl

abbrev fetched : Answers
fetched = record {
  chat = answers (ok chat);
  key = ok (λ bytes. ok "Hel");
  messages =
      some (record { message = question; encrypted_content = 1 ∷ [] })
      ∷ none
      ∷ some (record { message = stale; encrypted_content = [] })
      ∷ [];
  jobs = answers (
      ok (
        record {
          job_id = "j";
          chat_id = "c";
          node_id = "n";
          model_id = "m";
          placeholder_message_id = "a";
          generation_status = other;
        }
        ∷ []));
}

fetch_messages-Agrees_example :
    let t = fetch_messages ready true fetched "c" store in (t.is_loading ≡ false) × Agrees "c" t
fetch_messages-Agrees_example = fetch_messages-Agrees ready fetched "c" store refl
