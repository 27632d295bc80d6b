-- ===== src/ChatStore/MessageData.antt =====
-- gpt_frontend/src/store/chatStore/actions/messageData: the messages of a chat are fetched, decrypted,
-- and merged with those that the store has. A message that is fetched (utils/mappers.ts) has every
-- field but the job's and the model's, so a field that it leaves undefined is undefined after the
-- merge too.
pub mod Merge
pub mod Leaves
pub mod Fetch
use gpt.Prelude.{
  ℕ, String, Bool, true, false, not, ◌&&◌, ◌||◌, Option, none, some, List, [], ◌∷◌, ◌==◌, leb,
  if◌then◌else◌, is_some, get_or, or_else, and_then, is_text, truthy, Result, ok, err, find?, any,
  Dict, lookup, insert, has, values, is_empty, given,
}
use gpt.Types.{
  Message, MessageErrorStatus, unknown, Job, GenerationStatus, completed, failed, Bytes,
}
use gpt.ChatStore.State.{ChatState}
use gpt.ChatStore.Setters.Status.{set_active_chat_job, clear_active_chat_job}
use gpt.ChatStore.Setters.Chat.{set_active_leaf}
use gpt.ChatStore.WebSocket.Find.{is_assistant, is_of_job}

-- `a || b` of two texts that may be missing.
abbrev pub first_given : Option String → Option String → Option String
first_given a b = or_else (given a) b

merged_content : Message → Message → String
merged_content f l =
    if not (is_empty l.content)
      && (is_empty f.content || (truthy l.is_complete && not (truthy f.is_complete)))
    then l.content
    else if is_empty f.content
    then l.content
    else f.content

-- `f` was fetched, `l` is the local one.
pub merged_message : Message → Message → Message
unfolding merged_content
merged_message f l = record f {
  content = merged_content f l;
  job_id = or_else f.job_id l.job_id;
  error_status = or_else l.error_status f.error_status;
  usage = or_else l.usage f.usage;
  model_id = first_given l.model_id f.model_id;
  is_complete = some (
      truthy f.is_complete
      || truthy l.is_complete
      || is_some (or_else l.error_status f.error_status));
}

-- The message that a local one becomes, beside the fetched one if there is one.
abbrev pub merged_with : Option Message → Message → Message
merged_with none l = l
merged_with (some f) l = merged_message f l

insert_fetched : List Message → Dict Message → Dict Message
insert_fetched [] merged = merged
insert_fetched (f ∷ fs) merged = insert_fetched fs (insert (get_or f.backend_id f.id) f merged)

merge_local : Dict Message → Dict Message → Dict Message
merge_local [] merged = merged
merge_local ((id, l) ∷ ls) merged =
    merge_local ls (insert id (merged_with (lookup id merged) l) merged)

pub merge_fetched_with_local_map : List Message → Option (Dict Message) → Dict Message
unfolding insert_fetched merge_local
merge_fetched_with_local_map fetched local_map =
    merge_local (get_or local_map []) (insert_fetched fetched [])

abbrev is_status : GenerationStatus → GenerationStatus → Bool
is_status completed completed = true
is_status failed failed = true
is_status _ _ = false

-- `job.placeholder_message_id === (msg.backendId ?? msg.id) || job.job_id === msg.jobId`
is_related : Message → Job → Bool
is_related m j = j.placeholder_message_id == get_or m.backend_id m.id || is_text m.job_id j.job_id

pub inferred_error : Message → Job → Option MessageErrorStatus
inferred_error m j =
    if is_status j.generation_status failed && not (is_some m.error_status)
    then some (unknown "Generation failed as per job status.")
    else m.error_status

pub with_job : Message → Job → Message
unfolding inferred_error
with_job m j = record m {
  model_id = first_given m.model_id (some j.model_id);
  job_id = first_given m.job_id (some j.job_id);
  is_complete = some (
      truthy m.is_complete
      || is_status j.generation_status completed
      || is_status j.generation_status failed
      || is_some (inferred_error m j));
  error_status = inferred_error m j;
}

pub job_details : List Job → Message → Message
unfolding is_related with_job
job_details jobs m =
    if is_assistant m.role
    then elim (find? (is_related m) jobs) [ none ↦ m | some j ↦ with_job m j ]
    else m

pub merge_job_details_into_map : Dict Message → List Job → Dict Message
unfolding job_details
merge_job_details_into_map [] jobs = []
merge_job_details_into_map ((id, m) ∷ ms) jobs =
    (id, job_details jobs m) ∷ merge_job_details_into_map ms jobs

-- A message as the canister keeps it: its content is empty here and encrypted beside it.
pub record EncryptedMessage : Type 0 where
  pub message : Message
  pub encrypted_content : Bytes

-- `decrypt` is `ChatCrypto.decryptMessage` with the key of the chat.
pub decrypted_message : (Bytes → Result String) → EncryptedMessage → Message
decrypted_message decrypt e = elim e.encrypted_content [
  | [] ↦ record (e.message) { content = "" }
  | b ∷ bs ↦ elim (decrypt (b ∷ bs)) [
    | ok plaintext ↦ record (e.message) { content = plaintext }
    | err _ ↦ record (e.message) {
      content = "[Decryption Failed]";
      error_status = some (unknown "Decryption failed");
    }
  ]
]

-- A message whose call failed is `none`, and is left out.
pub decrypted_messages : (Bytes → Result String) → List (Option EncryptedMessage) → List Message
unfolding decrypted_message
decrypted_messages decrypt [] = []
decrypted_messages decrypt (none ∷ es) = decrypted_messages decrypt es
decrypted_messages decrypt (some e ∷ es) =
    decrypted_message decrypt e ∷ decrypted_messages decrypt es

-- A local message of the active job that has ended already.
pub was_locally_complete : Option (Dict Message) → Option String → Bool
was_locally_complete (some m) (some job_id) =
    any (λ msg. is_of_job job_id msg && truthy msg.is_complete) (values m)
was_locally_complete _ _ = false

placeholder_is_running : Dict Message → Job → Bool
placeholder_is_running m j = elim (lookup j.placeholder_message_id m) [
  | none ↦ false
  | some msg ↦
      is_assistant msg.role && not (truthy msg.is_complete) && not (is_some msg.error_status)
]

pub is_job_actually_running : Bool → Option String → List Job → Dict Message → Bool
unfolding placeholder_is_running
is_job_actually_running locally_complete none jobs m = false
is_job_actually_running locally_complete (some job_id) jobs m =
    not locally_complete && (elim (find? (λ j. j.job_id == job_id) jobs) [
      | none ↦ false
      | some j ↦ placeholder_is_running m j
    ])

-- `wasPreviouslyErroredViaStream`
unfoldable pub was_errored : String → String → ChatState → Bool
was_errored chat_id job_id s = elim (lookup chat_id s.active_chat_jobs) [
  | none ↦ false
  | some j ↦ j.job_id == job_id && truthy j.errored_via_stream
]

unfoldable pub update_active_job : String → Option String → Bool → ChatState → ChatState
unfolding was_errored
update_active_job chat_id (some job_id) true s =
    set_active_chat_job chat_id job_id (was_errored chat_id job_id s) s
update_active_job chat_id _ _ s = clear_active_chat_job chat_id s

-- The last message with the latest time, under its backend id if it has one.
latest : ℕ → Option String → List Message → Option String
latest time leaf [] = leaf
latest time leaf (m ∷ ms) =
    let later = latest m.created_at (some (get_or m.backend_id m.id)) ms in
    let same = latest time leaf ms in if leb time m.created_at then later else same

move_leaf : String → Dict Message → ChatState → ChatState
unfolding latest
move_leaf chat_id m s = elim (latest 0 none (values m)) [
  | none ↦ s
  | some leaf ↦ set_active_leaf chat_id leaf s
]

pub keep_leaf : String → Dict Message → ChatState → ChatState
unfolding move_leaf
keep_leaf chat_id m s = elim (and_then (lookup chat_id s.active_leaf_message_id) (λ leaf. leaf)) [
  | some leaf ↦ if has leaf m then s else move_leaf chat_id m s
  | none ↦ move_leaf chat_id m s
]
