-- ===== src/ChatStore/Messages/WebSearch.antt =====
-- message/tool.ts: the socket of a web search. Each event is one of the callbacks; a packet has been
-- decrypted, and its error is the message that came with it, or "" when there was none.
pub mod Settled
use gpt.Prelude.{
  ◌+◌, String, Bool, true, false, Option, none, some, List, [], ◌∷◌, ◌++◌, if◌then◌else◌, get_or,
  Result, ok, err, is_empty,
}

pub data SearchEvent : Type 0 where
  timeout error closed : SearchEvent
  opened : (handshake : Result (Unit {0})) → SearchEvent
  packet : (text : String) (is_complete : Bool) (error : Option String) → SearchEvent
  unreadable : SearchEvent

-- `answer` is what the promise was settled with, `is_pending` that the timeout still runs, and
-- `is_closed` that `ws.close()` was called.
pub record Search : Type 0 where
  pub text : String
  pub is_settled : Bool
  pub is_pending : Bool
  pub is_closed : Bool
  pub answer : Option (Result String)

abbrev pub new_search : Search
new_search = record {
  text = "";
  is_settled = false;
  is_pending = true;
  is_closed = false;
  answer = none;
}

-- `resolve` or `reject`: only the first one counts.
abbrev pub settle : Result String → Search → Search
settle r s = record s { answer = elim s.answer [ none ↦ some r | some first ↦ some first ] }

abbrev pub cleanup : Search → Search
cleanup s = record s { is_settled = true; is_closed = true }

abbrev pub clear_timeout : Search → Search
clear_timeout s = record s { is_pending = false }

abbrev pub search_error : String → String
search_error message = if is_empty message then "Unknown search error" else message

unfoldable pub fail_unless_settled : String → Search → Search
fail_unless_settled message s = if s.is_settled then s else settle (err message) (cleanup s)

unfoldable pub on_packet : String → Bool → Option String → Search → Search
on_packet text is_complete failure s =
    let t = if is_empty text then s else record s { text = text } in
    elim failure [
      | some message ↦ settle (err (search_error message)) (cleanup (clear_timeout t))
      | none ↦ if is_complete then settle (ok t.text) (cleanup (clear_timeout t)) else t
    ]

unfoldable pub on_event : SearchEvent → Search → Search
unfolding fail_unless_settled on_packet
on_event timeout s =
    if s.is_pending then fail_unless_settled "Search request timed out." (clear_timeout s) else s
on_event error s = fail_unless_settled "WebSocket connection error." (clear_timeout s)
on_event closed s = fail_unless_settled "WebSocket closed unexpectedly." (clear_timeout s)
on_event (opened (ok _)) s = s
on_event (opened (err message)) s = settle (err message) (cleanup s)
on_event (packet text is_complete failure) s = on_packet text is_complete failure s
on_event unreadable s = s

unfoldable pub on_events : List SearchEvent → Search → Search
on_events [] s = s
on_events (e ∷ es) s = on_events es (on_event e s)

-- What the promise is settled with. The timeout comes after all else, and by then it is settled.
unfoldable pub await_search : List SearchEvent → Result String
await_search events = get_or (on_events (events ++ timeout ∷ []) new_search).answer (err "")
