-- ===== src/ChatStore/Messages/Add/Sent.antt =====
-- What a message that is added leaves, whether the canister took it or not.
use gpt.Prelude.{
  String, ◌≡◌, refl, ◌⊎◌, inl, inr, Bool, true, false, none, some, List, [], ◌∷◌, ◌==◌, get_or,
  Result, ok, err, Dict, lookup, trim, lookup-insert_self, given, Result-cases, Gives, Fails, gives,
  fails,
}
use gpt.Types.{Bytes, ImageAttachment, Message}
use gpt.ChatStore.State.{ChatState, World}
use gpt.ChatStore.Setters.Attachments.Timers.{schedule-store}
use gpt.ChatStore.Setters.Chat.{set_active_leaf}
use gpt.ChatStore.Setters.Status.{
  set_active_chat_job, set_is_ai_typing, set_is_generating, set_is_waiting,
}
use gpt.ChatStore.Messages.{
  Env, Ids, ai_message, change_chat, connect, effort, put_messages, settings,
  transform_attachments_for_backend, user_message,
}
use gpt.ChatStore.Messages.Puts.{Has, put_messages-Has}
use gpt.ChatStore.Messages.Add.{
  AddParams, Target, add_failed, add_message_to_existing_chat, add_request, add_target,
  add_to_store, added, parent_of,
}

-- The three flags of a chat.
abbrev pub AllFlags : String → Bool → ChatState → Type 0
AllFlags chat_id flag s =
    (lookup chat_id s.is_generating ≡ some flag)
    × (lookup chat_id s.is_waiting ≡ some flag)
    × (lookup chat_id s.is_ai_typing ≡ some flag)

abbrev pub messages_of : String → ChatState → Dict Message
messages_of chat_id s = get_or (lookup chat_id s.messages) []

-- A question and its empty answer are in the chat, the question under the leaf that was active, and
-- the answer is the leaf under which the next message goes. The chat works on the job, and the input
-- is empty.
abbrev pub IsAdded : String → String → Ids → ChatState → ChatState → ChatState → Type 0
IsAdded chat_id text ids first before after =
    ((u : Message) × (a : Message) × (u.id ≡ ids.user_message_id)
      × (a.id ≡ ids.ai_message_id)
      × (u.content ≡ text)
      × (u.parent_message_id ≡ parent_of chat_id first)
      × (a.parent_message_id ≡ some u.id)
      × (a.job_id ≡ some ids.job_id)
      × (a.is_complete ≡ some false)
      × Has u a (messages_of chat_id before) (messages_of chat_id after))
    × (parent_of chat_id after ≡ given (some ids.ai_message_id))
    × (lookup chat_id after.active_chat_jobs
        ≡ some (record { job_id = ids.job_id; errored_via_stream = some false }))
    × AllFlags chat_id true after
    × (after.input ≡ "")

added-IsAdded :
    (env : Env) (t : Target) (images : List ImageAttachment) (ids : Ids) (s : ChatState) (w : World)
    → (ids.ai_message_id == ids.user_message_id) ≡ false
    → IsAdded t.chat_id (trim s.input) ids s w.store (added env t images ids s w).store
unfolding added add_to_store change_chat set_active_leaf set_active_chat_job user_message ai_message
added-IsAdded env t images ids s w apart =
    let u =
      user_message env.now t.chat_id ids.user_message_id (trim s.input) (parent_of t.chat_id s) none
        (some images) in
    let a =
      ai_message env.now t.chat_id ids.ai_message_id ids.job_id ids.user_message_id
        t.model.model_id in
    let m = messages_of t.chat_id w.store in
    rw (schedule-store 250 w) (
      (
        u,
        a,
        refl,
        refl,
        refl,
        refl,
        refl,
        refl,
        refl,
        rw (lookup-insert_self t.chat_id (put_messages (u ∷ a ∷ []) m) w.store.messages)
            (put_messages-Has u a m apart),
      ),
      rw (lookup-insert_self t.chat_id (some ids.ai_message_id) w.store.active_leaf_message_id)
          refl,
      lookup-insert_self t.chat_id _ w.store.active_chat_jobs,
      (
        lookup-insert_self t.chat_id true w.store.is_generating,
        lookup-insert_self t.chat_id true w.store.is_waiting,
        lookup-insert_self t.chat_id true w.store.is_ai_typing,
      ),
      refl,
    )

-- What the canister is asked, with the content and the key that the ciphers gave.
abbrev pub asked_to_add :
    Env → Target → List ImageAttachment → ChatState → Bytes → String → AddParams
asked_to_add env t images s content key = record {
  chat_id = t.chat_id;
  content = content;
  settings = settings env t.model t.node s;
  encrypted_chat_key = key;
  attachments = images;
  reasoning_effort = effort t.model s;
  parent_message_id = parent_of t.chat_id s;
}

module _ (env : Env) (add_message : AddParams → Result Ids) (t : Target)
    (images : List ImageAttachment) (s : ChatState) where
  -- The ciphers succeed, and the canister answers what it is asked with these ids.
  abbrev pub AddTaken : Ids → Type 0
  AddTaken ids = Gives (env.derive_key t.chat.encryption_salt) (λ _.
      Gives (env.encrypt (trim s.input)) (λ content.
        Gives (env.wrap t.public_key)
          (λ key. add_message (asked_to_add env t images s content key) ≡ ok ids)))

  -- One of the ciphers fails with this error, or they succeed and the canister does.
  abbrev pub AddRefused : String → Type 0
  AddRefused e = Fails (env.derive_key t.chat.encryption_salt) e (λ _.
      Fails (env.encrypt (trim s.input)) e (λ content.
        Fails (env.wrap t.public_key) e
          (λ key. add_message (asked_to_add env t images s content key) ≡ err e)))

  add_request-taken : (ids : Ids) → add_request env add_message t images s ≡ ok ids → AddTaken ids
  unfolding add_request
  add_request-taken ids q = gives _ (env.derive_key t.chat.encryption_salt) q (λ _ q1.
      gives _ (env.encrypt (trim s.input)) q1
        (λ content q2. gives _ (env.wrap t.public_key) q2 (λ key asked. asked)))

  add_request-refused : (e : String) → add_request env add_message t images s ≡ err e → AddRefused e
  unfolding add_request
  add_request-refused e q = fails _ (env.derive_key t.chat.encryption_salt) q (λ _ q1.
      fails _ (env.encrypt (trim s.input)) q1
        (λ content q2. fails _ (env.wrap t.public_key) q2 (λ key asked. asked)))

pub add_failed-undone :
    (chat_id : String) (w : World)
    → let s = (add_failed chat_id w).store in
      AllFlags chat_id false s
      × (s.chats ≡ w.store.chats)
      × (s.messages ≡ w.store.messages)
      × (s.input ≡ w.store.input)
unfolding add_failed set_is_ai_typing set_is_generating set_is_waiting
add_failed-undone chat_id w = rw (schedule-store 250 _) (
  (
    lookup-insert_self chat_id false w.store.is_generating,
    lookup-insert_self chat_id false w.store.is_waiting,
    lookup-insert_self chat_id false w.store.is_ai_typing,
  ),
  refl,
  refl,
  refl,
)

-- A message that passes its guards, whose images can be read, and for which the canister, if it
-- answers, gives two different ids. If the ciphers succeed and the canister answers with the ids, the
-- result is the id of the chat, and the socket of the job is opened in a store that has the question
-- and its empty answer under these ids, under the leaf that was active, and the answer as the new
-- leaf. Otherwise a cipher or the canister has failed: its error is thrown, the three flags of the
-- chat are put out, and the chats, the messages and the input are as they were. The canister is
-- asked for the encrypted text under the leaf that was active.
pub add_message-Sent :
    (env : Env) (add_message : AddParams → Result Ids) (w : World) (t : Target)
    (images : List ImageAttachment)
    → add_target env w.store ≡ ok t
    → transform_attachments_for_backend env.read w.store.attachments ≡ ok images
    → ((p : AddParams) (ids : Ids)
        → add_message p ≡ ok ids
        → (ids.ai_message_id == ids.user_message_id) ≡ false)
    → let (v, answer) = add_message_to_existing_chat env add_message w in
      let before = (env.meanwhile w).store in
      ((ids : Ids) × (opened : World) × AddTaken env add_message t images w.store ids
        × (answer ≡ ok t.chat_id)
        × (v ≡ connect env t.chat_id ids.job_id t.node opened)
        × IsAdded t.chat_id (trim w.store.input) ids w.store before opened.store)
      ⊎ ((e : String) × AddRefused env add_message t images w.store e
          × (answer ≡ err e)
          × AllFlags t.chat_id false v.store
          × (v.store.chats ≡ before.chats)
          × (v.store.messages ≡ before.messages)
          × (v.store.input ≡ before.input))
unfolding add_message_to_existing_chat
add_message-Sent env add_message w t images g r apart =
    elim (Result-cases (add_request env add_message t images w.store)) [
      | inl (ids, q) ↦
          let taken = add_request-taken env add_message t images w.store ids q in
          let (_, _, (content, _, (key, _, asked))) = taken in
          rw (add_message_to_existing_chat, g, r, q)
            (inl (
              ids,
              added env t images ids w.store (env.meanwhile w),
              taken,
              refl,
              refl,
              added-IsAdded env t images ids w.store (env.meanwhile w) (apart _ ids asked),
            ))
      | inr (e, q) ↦
          let (flags, chats, messages, input) = add_failed-undone t.chat_id (env.meanwhile w) in
          let refused = add_request-refused env add_message t images w.store e q in
          rw (add_message_to_existing_chat, g, r, q)
            (inr (e, refused, refl, flags, chats, messages, input))
    ]
