-- ===== src/ChatStore/MessageData/Leaves.antt =====
-- The choice of the active leaf touches nothing else.
use gpt.Prelude.{
  String, ◌≡◌, refl, inl, inr, Option, none, some, Bool-cases, Option-cases, and_then, Dict, lookup,
  insert, has, values,
}
use gpt.Types.{Message}
use gpt.ChatStore.State.{ChatState}
use gpt.ChatStore.Setters.Chat.{set_active_leaf}
use gpt.ChatStore.MessageData.{latest, move_leaf, keep_leaf}

-- Only the leaves differ.
abbrev pub SameButLeaves : ChatState → ChatState → Type 0
SameButLeaves t s = (ls : Dict (Option String)) × (t ≡ record s { active_leaf_message_id = ls })

move_leaf-only :
    (chat_id : String) (m : Dict Message) (s : ChatState) → SameButLeaves (move_leaf chat_id m s) s
unfolding move_leaf set_active_leaf
move_leaf-only chat_id m s = elim (Option-cases (latest 0 none (values m))) [
  | inl e ↦ (s.active_leaf_message_id, rw (e, move_leaf) refl)
  | inr (leaf, e) ↦ (insert chat_id (some leaf) s.active_leaf_message_id, rw (e, move_leaf) refl)
]

pub keep_leaf-only :
    (chat_id : String) (m : Dict Message) (s : ChatState) → SameButLeaves (keep_leaf chat_id m s) s
unfolding keep_leaf
keep_leaf-only chat_id m s =
    elim (Option-cases (and_then (lookup chat_id s.active_leaf_message_id) (λ leaf. leaf))) [
      | inl e ↦ rw (e, keep_leaf) (move_leaf-only chat_id m s)
      | inr (leaf, e) ↦ elim (Bool-cases (has leaf m)) [
        | inl t ↦ rw (e, keep_leaf) (rw t (s.active_leaf_message_id, refl))
        | inr f ↦ rw (e, keep_leaf) (rw f (move_leaf-only chat_id m s))
      ]
    ]
