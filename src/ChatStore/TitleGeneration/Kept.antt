-- ===== src/ChatStore/TitleGeneration/Kept.antt =====
-- What a generated title changes, and what becomes of the chat that was made for it.
use gpt.Prelude.{
  ◌≤◌, String, ◌≡◌, refl, ◌⊎◌, inl, inr, true, false, Option, Bool-cases, Option-cases, ok, err,
  is_empty, units, units-take_units, given, Result-cases,
}
use gpt.ChatStore.State.{World, set_state}
use gpt.ChatStore.Chats.{rename_chat}
use gpt.ChatStore.Nodes.Pick.{NodeChoice}
use gpt.ChatStore.Messages.{Env}
use gpt.ChatStore.Messages.Create.{NewChat, TitleRequest}
use gpt.ChatStore.TitleGeneration.{
  TitleEnv, connect_temporary, max_attempts, poll_message, TemporaryChat, cleaned_title, deleted,
  generate_title_for_chat, left, make_temporary_chat, not_made, use_title, was_renamed,
}

-- The store is as it was, unless the title that was given first is replaced by one of 50 units at most
-- which is not empty. The temporary chat is left only by a renaming: by the user, or one that failed.
abbrev pub IsTitled : Env → TitleEnv → TitleRequest → World → World × TemporaryChat → Type 0
IsTitled env t request before (after, fate) =
    ((after ≡ before)
      × ((fate ≡ deleted) ⊎ ((fate ≡ left) × (was_renamed request before.store ≡ true))))
    ⊎ ((title : String) × (units title ≤ 50)
        × (is_empty title ≡ false)
        × (was_renamed request before.store ≡ false)
        × (let (s, done) =
              rename_chat env.now env.access t.renamed t.fetched request.chat_id title
                before.store in
            (after ≡ set_state (λ _. s) before)
            × (fate ≡ (elim done [ ok _ ↦ deleted | err _ ↦ left ]))))

units-cleaned_title : (text : String) → units (cleaned_title text) ≤ 50
unfolding cleaned_title
units-cleaned_title text = units-take_units 50 _

use_title-IsTitled :
    (env : Env) (t : TitleEnv) (request : TitleRequest) (title : Option String) (w : World)
    → IsTitled env t request w (use_title env t request title w)
unfolding use_title
use_title-IsTitled env t request title w = elim (Option-cases (given title)) [
  | inl n ↦ rw (use_title, n) (inl (refl, inl refl))
  | inr (text, n) ↦ elim (Bool-cases (was_renamed request w.store)) [
    | inl r ↦ rw (use_title, n, r) (inl (refl, inr (refl, refl)))
    | inr r ↦ elim (Bool-cases (is_empty (cleaned_title text))) [
      | inl e ↦ rw (use_title, n, r, e) (inl (refl, inl refl))
      | inr e ↦
          rw (use_title, n, r, e)
            (inr (cleaned_title text, units-cleaned_title text, e, refl, (refl, refl)))
    ]
  ]
]

-- The world when the socket of the temporary chat is open and the polls are over.
abbrev pub after_polls : Env → TitleEnv → NodeChoice → NewChat → World → World
after_polls env t n made w = t.later (connect_temporary env t n made (env.meanwhile w))

-- The generation of a title ends in one of two ways. No temporary chat is made, and nothing changes. Or
-- one is made, and after the polls the title of the chat is either left alone, or set to one that is not
-- empty and has 50 units at most, the latter only if the user has not renamed the chat. The temporary
-- chat is then deleted, except that it is left where it is if the user has renamed the chat, or if the
-- renaming fails.
pub generate_title-IsTitled :
    (env : Env) (t : TitleEnv) (request : TitleRequest) (w : World)
    → (generate_title_for_chat env t request w ≡ (w, not_made))
      ⊎ ((n : NodeChoice) × (made : NewChat) × (make_temporary_chat env t request w.store
            ≡ ok (n, made))
          × IsTitled env t request
              (after_polls env t n made w)
              (generate_title_for_chat env t request w))
unfolding generate_title_for_chat
generate_title-IsTitled env t request w =
    elim (Result-cases (make_temporary_chat env t request w.store)) [
      | inr (e, q) ↦ rw (generate_title_for_chat, q) (inl refl)
      | inl ((n, made), q) ↦
          let title =
            poll_message (t.get_message made.ids.ai_message_id) t.decrypt max_attempts 0 in
          rw (generate_title_for_chat, q)
            (inr
              (n, made, refl, use_title-IsTitled env t request title (after_polls env t n made w)))
    ]
