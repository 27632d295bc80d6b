-- ===== src/ChatStore/Chats.antt =====
-- gpt_frontend/src/store/chatStore/actions/chat: the list of the user's chats. Each action is guarded
-- by the session, awaits a canister, changes the list, and fetches it again. The result is what the
-- caller sees: an error is thrown on.
pub mod Lists
use gpt.Prelude.{
  ℕ, String, Bool, true, false, not, none, some, List, [], ◌∷◌, map, ◌==◌, if◌then◌else◌, is_some,
  and_then, is_text, truthy, Result, ok, err, filter, find?, Dict, insert, remove, merge, given,
}
use gpt.Types.{Chat}
use gpt.ChatStore.State.{ChatState, Access, is_ready, Call}

pub create_new_chat : ChatState → ChatState
create_new_chat s = record s {
  chat_title = "";
  input = "";
  is_generating = insert "new" false s.is_generating;
  is_waiting = insert "new" false s.is_waiting;
  is_ai_typing = insert "new" false s.is_ai_typing;
  current_chat_id = none;
}

-- The chats with no active job, each with a flag to clear.
generation_flags_update : Dict Bool → List Chat → Dict Bool
generation_flags_update acc [] = acc
generation_flags_update acc (c ∷ cs) =
    generation_flags_update
      (if is_some (given c.active_job_id) then acc else insert c.chat_id false acc) cs

store_chats : List Chat → ChatState → ChatState
store_chats chats s =
    let update = generation_flags_update [] chats in
    record s {
      chats = chats;
      has_fetched_chats = true;
      is_generating = merge s.is_generating update;
      is_ai_typing = merge s.is_ai_typing update;
      is_waiting = merge s.is_waiting update;
    }

pub fetch_chats : Access → Call (List Chat) → ChatState → ChatState
unfolding store_chats
fetch_chats access chats s =
    if is_ready access
    then elim chats.answer [
      | err _ ↦ record (chats.meanwhile s) { has_fetched_chats = true }
      | ok list ↦ store_chats list (chats.meanwhile s)
    ]
    else s

-- The frame of the actions: `change` is their `set`, and `fetched` the answer of the fetch after it.
then_fetch :
    Access
    → Call (Unit {0})
    → Call (List Chat)
    → (ChatState → ChatState)
    → ChatState
    → ChatState × Result (Unit {0})
then_fetch access done fetched change s =
    if is_ready access
    then elim done.answer [
      | err message ↦ (done.meanwhile s, err message)
      | ok _ ↦ (fetch_chats access fetched (change (done.meanwhile s)), ok tt)
    ]
    else (s, ok tt)

forget_chat : String → ChatState → ChatState
forget_chat chat_id s = record s {
  chats = filter (λ c. not (c.chat_id == chat_id)) s.chats;
  messages = remove chat_id s.messages;
  is_generating = remove chat_id s.is_generating;
  is_waiting = remove chat_id s.is_waiting;
  is_ai_typing = remove chat_id s.is_ai_typing;
  active_chat_jobs = remove chat_id s.active_chat_jobs;
  active_leaf_message_id = remove chat_id s.active_leaf_message_id;
}

pub delete_chat :
    Access → Call (Unit {0}) → Call (List Chat) → String → ChatState → ChatState × Result (Unit {0})
delete_chat access done fetched chat_id s = then_fetch access done fetched (forget_chat chat_id) s

-- `chats.map(…)`: the chats of that id are changed.
update_chat : String → (Chat → Chat) → List Chat → List Chat
update_chat chat_id f cs = map (λ c. if c.chat_id == chat_id then f c else c) cs

pub retitle : ℕ → String → String → ChatState → ChatState
retitle now chat_id title s = record s {
  chats = update_chat chat_id (λ c. record c { title = title; updated_at = now }) s.chats;
  chat_title = if is_text s.current_chat_id chat_id then title else s.chat_title;
}

pub rename_chat :
    ℕ
    → Access
    → Call (Unit {0})
    → Call (List Chat)
    → String
    → String
    → ChatState
    → ChatState × Result (Unit {0})
rename_chat now access done fetched chat_id title s =
    then_fetch access done fetched (retitle now chat_id title) s

set_archived : String → Bool → ChatState → ChatState
set_archived chat_id flag s = record s {
  chats = update_chat chat_id (λ c. record c { archived = flag }) s.chats;
}

-- `chats.find((c) => c.chatId === chatId)?.temporary`
pub is_temporary : String → List Chat → Bool
is_temporary chat_id cs =
    truthy (and_then (find? (λ c. c.chat_id == chat_id) cs) (λ c. some c.temporary))

-- A temporary chat is not archived: the action returns before it calls the canister.
pub archive_chat :
    Access → Call (Unit {0}) → Call (List Chat) → String → ChatState → ChatState × Result (Unit {0})
archive_chat access done fetched chat_id s =
    if is_temporary chat_id s.chats
    then (s, ok tt)
    else then_fetch access done fetched (set_archived chat_id true) s

pub unarchive_chat :
    Access → Call (Unit {0}) → Call (List Chat) → String → ChatState → ChatState × Result (Unit {0})
unarchive_chat access done fetched chat_id s =
    then_fetch access done fetched (set_archived chat_id false) s
