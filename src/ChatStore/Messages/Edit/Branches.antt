-- ===== src/ChatStore/Messages/Edit/Branches.antt =====
-- An edit makes another question beside the old one, and a retry another answer to the question.
use gpt.Prelude.{
  String, ◌≡◌, refl, sym, ap, ◌∙◌, ◌⊎◌, inl, inr, true, false, Option, none, some, List, [], ◌∷◌,
  ◌==◌, and_then, Result, ok, err, ◌>>=◌, Gives, Fails, fails, Dict, lookup, lookup-insert_self,
  Result-cases, need, >>=-ends,
}
use gpt.Types.{Bytes, Chat, ImageAttachment, Message, Model}
use gpt.ChatStore.State.{ChatState, World, set_state}
use gpt.ChatStore.Setters.Attachments.Timers.{schedule-store}
use gpt.ChatStore.Setters.Chat.{set_active_leaf}
use gpt.ChatStore.Setters.Status.{set_is_generating}
use gpt.ChatStore.Nodes.Pick.{NodeChoice}
use gpt.ChatStore.Messages.{
  Env, Ids, ai_message, change_chat, choose_node, connect, effort, put_messages, settings,
  transform_attachments_for_backend, user_message,
}
use gpt.ChatStore.Messages.Puts.{Has, put_messages-Has}
use gpt.ChatStore.Messages.Add.Sent.{messages_of}
use gpt.ChatStore.Messages.Edit.{
  EditParams, add_versions, edit_request, edit_target, edit_user_message, edited, no_key, no_node,
}

-- The new question has the new text and the parent that the old question had when the edit began, and
-- its empty answer is the active leaf. Every message with another id, the old question among them, is
-- as before.
abbrev pub IsEdited : String → String → String → Ids → ChatState → ChatState → ChatState → Type 0
IsEdited chat_id old_id text ids first before after =
    ((u : Message) × (a : Message) × (u.id ≡ ids.user_message_id)
      × (a.id ≡ ids.ai_message_id)
      × (u.content ≡ text)
      × (u.parent_message_id
          ≡ and_then (lookup old_id (messages_of chat_id first)) (λ old. old.parent_message_id))
      × (a.parent_message_id ≡ some u.id)
      × (a.job_id ≡ some ids.job_id)
      × Has u a (messages_of chat_id before) (messages_of chat_id after))
    × (lookup chat_id after.active_leaf_message_id ≡ some (some ids.ai_message_id))

edited-IsEdited :
    (env : Env) (chat_id old_id text : String) (m : Model) (images : List ImageAttachment)
    (ids : Ids) (s : ChatState) (w : World)
    → (ids.ai_message_id == ids.user_message_id) ≡ false
    → IsEdited chat_id old_id text ids s w.store
        (edited env chat_id old_id text m (messages_of chat_id s) images ids w).store
unfolding edited add_versions change_chat set_active_leaf user_message ai_message
edited-IsEdited env chat_id old_id text m images ids s w apart =
    let local = messages_of chat_id s in
    let parent = and_then (lookup old_id local) (λ old. old.parent_message_id) in
    let u =
      user_message env.now chat_id ids.user_message_id text parent (some m.model_id)
        (some images) in
    let a =
      ai_message env.now chat_id ids.ai_message_id ids.job_id ids.user_message_id m.model_id in
    let known = messages_of chat_id w.store in
    rw (schedule-store 250 w) (
      (
        u,
        a,
        refl,
        refl,
        refl,
        refl,
        refl,
        refl,
        rw (lookup-insert_self chat_id (put_messages (u ∷ a ∷ []) known) w.store.messages)
            (put_messages-Has u a known apart),
      ),
      lookup-insert_self chat_id _ w.store.active_leaf_message_id,
    )

pub ok_injective : {A : Type 0} {a b : A} → ok a ≡ ok b → a ≡ b
ok_injective h = cc

-- A sequence whose last step only puts the value together fails with the step before.
pub asked_last :
    {A B : Type 0} (r : Result A) (f : A → B) {e : String}
    → (r >>= λ a. ok (f a)) ≡ err e
    → r ≡ err e
asked_last (ok a) f q = cc
asked_last (err other) f {e} q = let same : other ≡ e = cc in ap err same

need-found :
    {A : Type 0} (o : Option A) (message : String) (a : A) → need o message ≡ ok a → o ≡ some a
need-found none message a h = cc
need-found (some b) message a h = cc

-- What the canister is asked, with the node, the files, the content and the key that were found.
abbrev pub asked_to_edit :
    Env
    → String
    → String
    → Model
    → ChatState
    → NodeChoice
    → List ImageAttachment
    → Bytes
    → String
    → EditParams
asked_to_edit env chat_id old_id m s n images content key = record {
  chat_id = chat_id;
  old_user_message_id = old_id;
  new_content = content;
  settings = settings env m n s;
  encrypted_chat_key = key;
  attachments = images;
  reasoning_effort = effort m s;
}

module _ (env : Env) (edit : EditParams → Result Ids) (chat_id old_id text : String) (c : Chat)
    (m : Model) (s : ChatState) where
  -- The chat has messages, a node serves the model, the files can be read, the ciphers succeed, and
  -- the canister answers what it is asked with these ids.
  abbrev pub EditTaken : NodeChoice → Ids → Type 0
  EditTaken n ids =
      (local : Dict Message) × (lookup chat_id s.messages ≡ some local)
      × Gives (choose_node env m no_node no_key s) (λ nk.
        (nk.0 ≡ n)
        × Gives (transform_attachments_for_backend env.read s.attachments) (λ images.
          Gives (env.derive_key c.encryption_salt) (λ _. Gives (env.encrypt text) (λ content.
            Gives (env.wrap nk.1) (λ key.
              edit (asked_to_edit env chat_id old_id m s nk.0 images content key) ≡ ok ids)))))

  -- One of these fails.
  abbrev pub EditRefused : Type 0
  EditRefused =
      (e : String) × Fails (need (lookup chat_id s.messages) "Message map not found.") e (λ _.
        Fails (choose_node env m no_node no_key s) e (λ nk.
          Fails (transform_attachments_for_backend env.read s.attachments) e (λ images.
            Fails (env.derive_key c.encryption_salt) e (λ _. Fails (env.encrypt text) e (λ content.
              Fails (env.wrap nk.1) e (λ key.
                edit (asked_to_edit env chat_id old_id m s nk.0 images content key) ≡ err e))))))

  edit_request-taken :
      (local : Dict Message) (n : NodeChoice) (images : List ImageAttachment) (ids : Ids)
      → edit_request env edit chat_id old_id text c m s ≡ ok (local, n, images, ids)
      → EditTaken n ids × (local ≡ messages_of chat_id s)
  unfolding edit_request
  edit_request-taken local n images ids e =
      >>=-ends (need (lookup chat_id s.messages) _) _ e (λ found l e1.
        >>=-ends (choose_node env m no_node no_key s) _ e1 (λ nk served e2.
          >>=-ends (transform_attachments_for_backend env.read s.attachments) _ e2 (λ is r e3.
            >>=-ends (env.derive_key c.encryption_salt) _ e3 (λ u d e4.
              >>=-ends (env.encrypt text) _ e4 (λ content sealed e5.
                >>=-ends (env.wrap nk.1) _ e5 (λ key wrapped e6.
                  >>=-ends (edit _) _ e6 (λ sent asked e7.
                    let same : (found, nk.0, is, sent) ≡ (local, n, images, ids) =
                      ok_injective e7 in
                    let known = need-found (lookup chat_id s.messages) _ found l in
                    let answered = asked ∙ ap ok (ap (λ x. x.3) same) in
                    (
                      (
                        found,
                        known,
                        (
                          nk,
                          served,
                          (
                            ap (λ x. x.1) same,
                            (is, r, (u, d, (content, sealed, (key, wrapped, answered)))),
                          ),
                        ),
                      ),
                      sym (ap (λ x. x.0) same) ∙ rw known refl,
                    ))))))))

  edit_request-refused :
      (e : String) → edit_request env edit chat_id old_id text c m s ≡ err e → EditRefused
  unfolding edit_request
  edit_request-refused e q = (
    e,
    fails _ (need (lookup chat_id s.messages) _) q (λ _ q1.
        fails _ (choose_node env m no_node no_key s) q1 (λ nk q2.
          fails _ (transform_attachments_for_backend env.read s.attachments) q2 (λ images q3.
            fails _ (env.derive_key c.encryption_salt) q3 (λ _ q4.
              fails _ (env.encrypt text) q4
                (λ content q5. fails _ (env.wrap nk.1) q5 (λ key q6. asked_last (edit _) _ q6)))))),
  )

-- An edit that goes on, and for which the canister, if it answers, gives two different ids. If a node
-- is found, the files can be read, the ciphers succeed and the canister answers with the ids, the
-- socket of the job is opened at that node, in a store that has the new question under its id beside
-- the old one, as another branch of the chat. Otherwise one of them has failed, or the chat has no
-- messages: the chat no longer generates, and the chats and the messages are as they were.
pub edit_user_message-IsEdited :
    (env : Env) (edit : EditParams → Result Ids) (chat_id old_id text : String) (w : World)
    (c : Chat) (m : Model)
    → edit_target env chat_id text w.store ≡ some (c, m)
    → ((p : EditParams) (ids : Ids)
        → edit p ≡ ok ids
        → (ids.ai_message_id == ids.user_message_id) ≡ false)
    → let v = edit_user_message env edit chat_id old_id text w in
      let begun = set_state (set_is_generating chat_id true) w in
      let before = (env.meanwhile begun).store in
      ((ids : Ids) × (n : NodeChoice) × (opened : World) × EditTaken env edit chat_id old_id text c
          m begun.store n ids
        × (v ≡ connect env chat_id ids.job_id n opened)
        × IsEdited chat_id old_id text ids w.store before opened.store)
      ⊎ (EditRefused env edit chat_id old_id text c m begun.store
          × (lookup chat_id v.store.is_generating ≡ some false)
          × (v.store.chats ≡ before.chats)
          × (v.store.messages ≡ before.messages))
unfolding edit_user_message set_is_generating
edit_user_message-IsEdited env edit chat_id old_id text w c m g apart =
    let begun = set_state (set_is_generating chat_id true) w in
    let u = env.meanwhile begun in
    elim (Result-cases (edit_request env edit chat_id old_id text c m begun.store)) [
      | inl ((local, n, images, ids), q) ↦
          let (taken, known) =
            edit_request-taken env edit chat_id old_id text c m begun.store local n images ids q in
          let (_, _, (_, _, (_, (_, _, (_, _, (_, _, (_, _, asked))))))) = taken in
          rw (edit_user_message, g, q)
            (inl (
              ids,
              n,
              edited env chat_id old_id text m local images ids u,
              taken,
              refl,
              rw known (
                  edited-IsEdited env chat_id old_id text m images ids w.store u
                    (apart _ ids asked)),
            ))
      | inr (e, q) ↦
          let failed = set_state (set_is_generating chat_id false) u in
          let refused = edit_request-refused env edit chat_id old_id text c m begun.store e q in
          rw (edit_user_message, g, q, schedule-store 250 failed)
            (inr (refused, lookup-insert_self chat_id false u.store.is_generating, refl, refl))
    ]
