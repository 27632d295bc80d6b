-- ===== src/ChatStore/Messages/Puts.antt =====
-- What two new messages change in the map of a chat.
use gpt.Prelude.{
  String, ◌≡◌, refl, ◌∙◌, false, some, [], ◌∷◌, ◌==◌, if◌then◌else◌, Dict, lookup, insert,
  lookup-insert, lookup-insert_ne, lookup-insert_self,
}
use gpt.Types.{Message}
use gpt.ChatStore.Messages.{put_messages}

-- The map has both messages, and every other entry as before.
abbrev pub Has : Message → Message → Dict Message → Dict Message → Type 0
Has u a before after =
    (lookup u.id after ≡ some u)
    × (lookup a.id after ≡ some a)
    × ((id : String)
        → lookup id after
          ≡ (if a.id == id then some a else (if u.id == id then some u else lookup id before)))

pub put_messages-Has :
    (u a : Message) (m : Dict Message)
    → (a.id == u.id) ≡ false
    → Has u a m (put_messages (u ∷ a ∷ []) m)
unfolding put_messages
put_messages-Has u a m apart = (
  lookup-insert_ne a.id u.id a (insert u.id u m) apart ∙ lookup-insert_self u.id u m,
  lookup-insert_self a.id a (insert u.id u m),
  λ id. rw (lookup-insert a.id id a (insert u.id u m), lookup-insert u.id id u m) refl,
)
