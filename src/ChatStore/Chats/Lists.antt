-- ===== src/ChatStore/Chats/Lists.antt =====
-- The list of chats after each action.
use gpt.Prelude.{
  ℕ, String, ◌≡◌, refl, ◌⊎◌, inl, inr, Bool, true, false, not, ◌&&◌, none, some, List, [], ◌∷◌,
  arith, eq_refl, ◌==◌, if◌then◌else◌, Bool-cases, is_some, Result, ok, err, any, Dict, lookup,
  insert, has, lookup-insert, lookup-remove, merge, given,
}
use gpt.Types.{Chat}
use gpt.ChatStore.State.{ChatState, Access, is_ready, Call}
use gpt.ChatStore.Chats.{
  generation_flags_update, store_chats, fetch_chats, then_fetch, forget_chat, delete_chat, retitle,
  rename_chat, set_archived, archive_chat, is_temporary, unarchive_chat,
}

-- A chat of that id is listed, and has no active job.
abbrev pub is_idle : String → List Chat → Bool
is_idle chat_id cs = any (λ c. c.chat_id == chat_id && not (is_some (given c.active_job_id))) cs

lookup-flags :
    (acc : Dict Bool) (cs : List Chat) (j : String)
    → lookup j (generation_flags_update acc cs)
      ≡ (if is_idle j cs then some false else lookup j acc)
unfolding generation_flags_update
lookup-flags acc [] j = refl
lookup-flags acc (c ∷ cs) j = ground (
  arith,
  lookup-flags acc cs j,
  lookup-flags (insert c.chat_id false acc) cs j,
  lookup-insert c.chat_id j false acc,
)

-- Every flag is off.
AllOff : Dict Bool → Type 0
AllOff [] = Unit {0}
AllOff ((k, v) ∷ m) = (v ≡ false) × AllOff m

insert-AllOff : (k : String) (m : Dict Bool) → AllOff m → AllOff (insert k false m)
unfolding AllOff insert
insert-AllOff k [] h = (refl, tt)
insert-AllOff k ((j, v) ∷ m) h = ground (arith, insert-AllOff k m h.1)

flags-AllOff :
    (acc : Dict Bool) (cs : List Chat) → AllOff acc → AllOff (generation_flags_update acc cs)
unfolding generation_flags_update
flags-AllOff acc [] h = h
flags-AllOff acc (c ∷ cs) h = ground (
  arith,
  flags-AllOff acc cs h,
  flags-AllOff (insert c.chat_id false acc) cs,
  insert-AllOff c.chat_id acc h,
)

lookup-merge_off :
    (m n : Dict Bool) (j : String)
    → AllOff n
    → lookup j (merge m n) ≡ (if has j n then some false else lookup j m)
unfolding merge AllOff lookup
lookup-merge_off m [] j h = refl
lookup-merge_off m ((k, v) ∷ n) j h =
    rw h.0 (ground (arith, lookup-merge_off (insert k false m) n j h.1, lookup-insert k j false m))

lookup-flags_merge :
    (m : Dict Bool) (cs : List Chat) (j : String)
    → lookup j (merge m (generation_flags_update [] cs))
      ≡ (if is_idle j cs then some false else lookup j m)
unfolding AllOff lookup
lookup-flags_merge m cs j = ground (
  arith,
  lookup-merge_off m (generation_flags_update [] cs) j (flags-AllOff [] cs tt),
  lookup-flags [] cs j,
)

-- If the session is ready and the canister answers with a list, that list is stored, and the three
-- flags of a chat are put out exactly if the list has the chat with no active job: all other flags stay
-- as they were when the answer came.
pub fetch_chats-flags :
    (access : Access) (chats : Call (List Chat)) (list : List Chat) (s : ChatState) (j : String)
    → is_ready access ≡ true
    → chats.answer ≡ ok list
    → let t = fetch_chats access chats s in
      let before = chats.meanwhile s in
      (t.chats ≡ list)
      × (lookup j t.is_generating
          ≡ (if is_idle j list then some false else lookup j before.is_generating))
      × (lookup j t.is_ai_typing
          ≡ (if is_idle j list then some false else lookup j before.is_ai_typing))
      × (lookup j t.is_waiting
          ≡ (if is_idle j list then some false else lookup j before.is_waiting))
unfolding fetch_chats store_chats
fetch_chats-flags access chats list s j ready answered =
    let before = chats.meanwhile s in
    rw (ready, answered)
      (
        refl,
        lookup-flags_merge before.is_generating list j,
        lookup-flags_merge before.is_ai_typing list j,
        lookup-flags_merge before.is_waiting list j,
      )

-- Nothing of the chat is left but, possibly, its place in the list.
abbrev pub Forgotten : String → ChatState → Type 0
Forgotten chat_id s =
    (lookup chat_id s.messages ≡ none)
    × (lookup chat_id s.active_chat_jobs ≡ none)
    × (lookup chat_id s.active_leaf_message_id ≡ none)

forget_chat-Forgotten :
    (chat_id : String) (s : ChatState) → Forgotten chat_id (forget_chat chat_id s)
unfolding forget_chat
forget_chat-Forgotten chat_id s =
    (simp (lookup-remove, eq_refl), simp (lookup-remove, eq_refl), simp (lookup-remove, eq_refl))

fetch_chats-Forgotten :
    (access : Access) (chats : Call (List Chat)) (chat_id : String) (s : ChatState)
    → is_ready access ≡ true
    → Forgotten chat_id (chats.meanwhile s)
    → Forgotten chat_id (fetch_chats access chats s)
unfolding fetch_chats store_chats
fetch_chats-Forgotten access chats chat_id s ready h =
    rw ready (elim (cases chats.answer) [ inl (l, e) ↦ rw e h | inr (m, e) ↦ rw e h ])
  where
    cases : (r : Result (List Chat)) → ((l : List Chat) × (r ≡ ok l)) ⊎ ((m : String) × (r ≡ err m))
    cases (ok l) = inl (l, refl)
    cases (err m) = inr (m, refl)

-- If the session is ready, the canister deletes the chat, and nothing brings the chat back while the
-- list is fetched, then no message, job or active leaf of the chat is left, whether the fetch succeeds
-- or fails.
pub delete_chat-Forgotten :
    (access : Access) (done : Call (Unit {0})) (fetched : Call (List Chat)) (chat_id : String)
    (s : ChatState)
    → is_ready access ≡ true
    → done.answer ≡ ok tt
    → ((u : ChatState) → Forgotten chat_id u → Forgotten chat_id (fetched.meanwhile u))
    → Forgotten chat_id (delete_chat access done fetched chat_id s).0
unfolding delete_chat then_fetch
delete_chat-Forgotten access done fetched chat_id s ready deleted kept =
    rw (ready, deleted)
      (fetch_chats-Forgotten access fetched chat_id _ ready
        (kept _ (forget_chat-Forgotten chat_id (done.meanwhile s))))

-- If the session is ready and the canister refuses, each action throws the refusal and leaves the store
-- as the other actions left it; to archive a temporary chat returns at once and changes nothing.
pub chat_actions-refused :
    (now : ℕ) (access : Access) (done : Call (Unit {0})) (fetched : Call (List Chat))
    (chat_id title message : String) (s : ChatState)
    → is_ready access ≡ true
    → done.answer ≡ err message
    → (delete_chat access done fetched chat_id s ≡ (done.meanwhile s, err message))
      × (rename_chat now access done fetched chat_id title s ≡ (done.meanwhile s, err message))
      × (unarchive_chat access done fetched chat_id s ≡ (done.meanwhile s, err message))
      × (archive_chat access done fetched chat_id s
          ≡ (if is_temporary chat_id s.chats then (s, ok tt) else (done.meanwhile s, err message)))
unfolding delete_chat rename_chat unarchive_chat archive_chat then_fetch
chat_actions-refused now access done fetched chat_id title message s ready refused =
    let refusal : (change : ChatState → ChatState)
        → then_fetch access done fetched change s ≡ (done.meanwhile s, err message) =
      λ change. rw (ready, refused, then_fetch) refl in
    (
      refusal (forget_chat chat_id),
      refusal (retitle now chat_id title),
      refusal (set_archived chat_id false),
      elim (Bool-cases (is_temporary chat_id s.chats)) [
        | inl t ↦ rw t refl
        | inr f ↦ rw f (refusal (set_archived chat_id true))
      ],
    )
