-- ===== src/ChatStore/Messages/Create/Created.antt =====
-- What the first message of a new chat leaves.
use gpt.Prelude.{
  String, ◌≡◌, refl, ap, ◌∙◌, ◌⊎◌, inl, inr, Bool, true, false, Option, none, some, List, [], ◌∷◌,
  eq_refl, ◌==◌, Result, ok, err, Dict, lookup, insert, trim, lookup-insert_ne, lookup-insert_self,
  Result-cases, Gives, Fails, gives, fails,
}
use gpt.Types.{Bytes, Chat, ImageAttachment, Message, Model}
use gpt.ChatStore.State.{ChatState, World}
use gpt.ChatStore.Setters.Attachments.Timers.{schedule-store}
use gpt.ChatStore.Setters.Chat.{set_active_leaf}
use gpt.ChatStore.Setters.Status.{set_active_chat_job}
use gpt.ChatStore.Nodes.Pick.{NodeChoice}
use gpt.ChatStore.WebSocket.Connection.{salt_of}
use gpt.ChatStore.Messages.{
  Env, ai_message, chat_of, connect, put_messages, settings, transform_attachments_for_backend,
  user_message,
}
use gpt.ChatStore.Messages.Add.Sent.{AllFlags, add_failed-undone}
use gpt.ChatStore.Messages.Create.{
  CreateParams, NewChat, create_in_store, create_new_chat_with_first_message, create_request,
  create_target, created, new_chat, title_from,
}

-- The new chat is open, first in the list and found by its id, with the salt that its first message
-- was encrypted under, so that its socket derives the same key. It has the question, which has no
-- parent, and the empty answer, which is the active leaf, and nothing else. The chat works on the job;
-- no new chat is marked as busy, and the other chats are as they were.
abbrev pub IsCreated : Bytes → NewChat → ChatState → ChatState → ChatState → Type 0
IsCreated salt made first before after =
    ((c : Chat) × (after.chats ≡ c ∷ before.chats)
      × (chat_of made.chat_id after ≡ some c)
      × (c.title ≡ after.chat_title)
      × (salt_of none made.chat_id after ≡ ok salt))
    × (after.current_chat_id ≡ some made.chat_id)
    × ((u : Message) × (a : Message) × (u.id ≡ made.ids.user_message_id)
        × (a.id ≡ made.ids.ai_message_id)
        × (u.content ≡ trim first.input)
        × (u.parent_message_id ≡ none)
        × (a.parent_message_id ≡ some u.id)
        × (a.job_id ≡ some made.ids.job_id)
        × (lookup made.chat_id after.messages ≡ some ((u.id, u) ∷ (a.id, a) ∷ [])))
    × (lookup made.chat_id after.active_leaf_message_id ≡ some (some made.ids.ai_message_id))
    × (lookup made.chat_id after.active_chat_jobs
        ≡ some (record { job_id = made.ids.job_id; errored_via_stream = some false }))
    × AllFlags made.chat_id true after
    × AllFlags "new" false after
    × (after.input ≡ "")

module _ (env : Env) (salt : Bytes) (owner : Option String) where
  -- Two entries of an empty map.
  pair :
      (made : NewChat)
      → (made.ids.user_message_id == made.ids.ai_message_id) ≡ false
      → (u a : Message)
      → insert made.ids.ai_message_id a (insert made.ids.user_message_id u [])
        ≡ (made.ids.user_message_id, u) ∷ (made.ids.ai_message_id, a) ∷ []
  unfolding insert
  pair made apart u a = rw apart refl

  created-IsCreated :
      (m : Model) (images : List ImageAttachment) (made : NewChat) (s : ChatState) (w : World)
      → (made.ids.user_message_id == made.ids.ai_message_id) ≡ false
      → (made.chat_id == "new") ≡ false
      → IsCreated salt made s w.store (created env salt owner m images made s w).store
  unfolding created create_in_store salt_of set_active_leaf set_active_chat_job user_message
      ai_message new_chat put_messages
  created-IsCreated m images made s w apart fresh =
      let found = eq_refl made.chat_id in
      let flags : (b : Dict Bool)
          → lookup "new"
              (insert made.chat_id true (insert made.chat_id true (insert "new" false b)))
            ≡ some false =
        λ b. rw (lookup-insert_ne made.chat_id "new" true _ fresh) (
          rw (lookup-insert_ne made.chat_id "new" true (insert "new" false b) fresh)
            (lookup-insert_self "new" false b)) in
      rw (schedule-store 250 w) (
        (new_chat env salt owner made s, refl, rw found refl, refl, rw (salt_of, found) refl),
        refl,
        (
          _,
          _,
          refl,
          refl,
          refl,
          refl,
          refl,
          refl,
          lookup-insert_self made.chat_id _ w.store.messages ∙ ap some (pair made apart _ _),
        ),
        lookup-insert_self made.chat_id _ w.store.active_leaf_message_id,
        lookup-insert_self made.chat_id _ w.store.active_chat_jobs,
        (
          lookup-insert_self made.chat_id true _,
          lookup-insert_self made.chat_id true _,
          lookup-insert_self made.chat_id true _,
        ),
        (flags w.store.is_generating, flags w.store.is_waiting, flags w.store.is_ai_typing),
        refl,
      )

-- What the canister is asked, with the content and the key that the ciphers gave.
abbrev pub asked_to_create :
    Env
    → Bytes
    → Model
    → NodeChoice
    → List ImageAttachment
    → ChatState
    → Bytes
    → String
    → CreateParams
asked_to_create env salt m n images s content key = record {
  title = title_from (trim s.input);
  initial_message = content;
  settings = settings env m n s;
  encrypted_chat_key = key;
  encryption_salt = salt;
  attachments = images;
  temporary = s.is_next_chat_temporary;
}

module _ (env : Env) (salt : Bytes) (owner : Option String)
    (create_chat : CreateParams → Result NewChat) (m : Model) (n : NodeChoice) (public_key : String)
    (images : List ImageAttachment) (s : ChatState) where
  -- The ciphers succeed, and the canister answers what it is asked with this chat.
  abbrev pub CreateTaken : NewChat → Type 0
  CreateTaken made = Gives (env.derive_key salt) (λ _.
      Gives (env.encrypt (trim s.input)) (λ content.
        Gives (env.wrap (trim public_key))
          (λ key. create_chat (asked_to_create env salt m n images s content key) ≡ ok made)))

  -- One of the ciphers fails with this error, or they succeed and the canister does.
  abbrev pub CreateRefused : String → Type 0
  CreateRefused e = Fails (env.derive_key salt) e (λ _.
      Fails (env.encrypt (trim s.input)) e (λ content.
        Fails (env.wrap (trim public_key)) e
          (λ key. create_chat (asked_to_create env salt m n images s content key) ≡ err e)))

  create_request-taken :
      (made : NewChat)
      → create_request env salt owner create_chat m n public_key images s ≡ ok made
      → CreateTaken made
  unfolding create_request
  create_request-taken made q = gives _ (env.derive_key salt) q (λ _ q1.
      gives _ (env.encrypt (trim s.input)) q1
        (λ content q2. gives _ (env.wrap (trim public_key)) q2 (λ key asked. asked)))

  create_request-refused :
      (e : String)
      → create_request env salt owner create_chat m n public_key images s ≡ err e
      → CreateRefused e
  unfolding create_request
  create_request-refused e q = fails _ (env.derive_key salt) q (λ _ q1.
      fails _ (env.encrypt (trim s.input)) q1
        (λ content q2. fails _ (env.wrap (trim public_key)) q2 (λ key asked. asked)))

-- A first message that passes its guards, whose images can be read, and for which the canister, if
-- it answers, gives two different ids and a chat that is not called "new". If the ciphers succeed and
-- the canister answers with the chat, the result is its id, and the socket of its job is opened in a
-- store that has the chat, with the question and its empty answer under the ids of the answer.
-- Otherwise a cipher or the canister has failed: its error is thrown, no title is asked for, a new
-- chat can be tried again, and the chats, the messages and the input are as they were.
pub create_new_chat-Created :
    (env : Env) (salt : Bytes) (owner : Option String) (create_chat : CreateParams → Result NewChat)
    (w : World) (m : Model) (n : NodeChoice) (key : String) (images : List ImageAttachment)
    → create_target env w.store ≡ ok (m, n, key)
    → transform_attachments_for_backend env.read w.store.attachments ≡ ok images
    → ((p : CreateParams) (made : NewChat)
        → create_chat p ≡ ok made
        → ((made.ids.user_message_id == made.ids.ai_message_id) ≡ false)
          × ((made.chat_id == "new") ≡ false))
    → let (v, answer, title) = create_new_chat_with_first_message env salt owner create_chat w in
      let before = (env.meanwhile w).store in
      ((made : NewChat) × (opened : World) × CreateTaken env salt owner create_chat m n key images
          w.store made
        × (answer ≡ ok made.chat_id)
        × (v ≡ connect env made.chat_id made.ids.job_id n opened)
        × IsCreated salt made w.store before opened.store)
      ⊎ ((e : String) × CreateRefused env salt owner create_chat m n key images w.store e
          × (answer ≡ err e)
          × (title ≡ none)
          × AllFlags "new" false v.store
          × (v.store.chats ≡ before.chats)
          × (v.store.messages ≡ before.messages)
          × (v.store.input ≡ before.input))
unfolding create_new_chat_with_first_message
create_new_chat-Created env salt owner create_chat w m n key images g r fresh =
    elim (Result-cases (create_request env salt owner create_chat m n key images w.store)) [
      | inl (made, q) ↦
          let taken =
            create_request-taken env salt owner create_chat m n key images w.store made q in
          let (_, _, (content, _, (wrapped, _, asked))) = taken in
          let (apart, named) = fresh _ made asked in
          rw (create_new_chat_with_first_message, g, r, q)
            (inl (
              made,
              created env salt owner m images made w.store (env.meanwhile w),
              taken,
              refl,
              refl,
              created-IsCreated env salt owner m images made w.store (env.meanwhile w) apart named,
            ))
      | inr (e, q) ↦
          let (flags, chats, messages, input) = add_failed-undone "new" (env.meanwhile w) in
          let refused =
            create_request-refused env salt owner create_chat m n key images w.store e q in
          rw (create_new_chat_with_first_message, g, r, q)
            (inr (e, refused, refl, refl, flags, chats, messages, input))
    ]
