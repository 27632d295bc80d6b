-- ===== src/ChatStore/Messages/WebSearch/Settled.antt =====
-- A web search always ends, with one answer.
use gpt.Prelude.{
  String, ◌≡◌, refl, sym, ap, ◌∙◌, ◌⊎◌, inl, inr, Bool, true, false, Option, none, some, List, [],
  ◌∷◌, ◌++◌, arith, if◌then◌else◌, Bool-cases, Option-cases, get_or, Result, ok, err, is_empty,
}
use gpt.ChatStore.Messages.WebSearch.{
  Search, cleanup, clear_timeout, settle, SearchEvent, await_search, closed, error,
  fail_unless_settled, new_search, on_event, on_events, on_packet, opened, packet, search_error,
  timeout, unreadable,
}

-- Before the answer the timeout runs; after it the socket is closed.
abbrev pub IsOrderly : Search → Type 0
IsOrderly s =
    ((s.is_settled ≡ false) × (s.is_pending ≡ true) × (s.answer ≡ none))
    ⊎ ((s.is_settled ≡ true) × (s.is_closed ≡ true) × ((r : Result String) × (s.answer ≡ some r)))

abbrev pub IsEnded : Search → Type 0
IsEnded s =
    (s.is_settled ≡ true) × (s.is_closed ≡ true) × ((r : Result String) × (s.answer ≡ some r))

settle-IsEnded : (r : Result String) (s : Search) → IsEnded (settle r (cleanup s))
settle-IsEnded r s = elim (Option-cases s.answer) [
  | inl n ↦ rw n (refl, refl, (r, refl))
  | inr (q, n) ↦ rw n (refl, refl, (q, refl))
]

fail-IsEnded :
    (message : String) (s : Search)
    → IsOrderly s
    → IsEnded (fail_unless_settled message (clear_timeout s))
unfolding fail_unless_settled
fail-IsEnded message s (inl (f, p, n)) = rw f (settle-IsEnded (err message) (clear_timeout s))
fail-IsEnded message s (inr (t, c, (r, a))) = rw t (refl, c, (r, a))

on_packet-IsOrderly :
    (text : String) (is_complete : Bool) (failure : Option String) (s : Search)
    → IsOrderly s
    → IsOrderly (on_packet text is_complete failure s)
unfolding on_packet
on_packet-IsOrderly text is_complete (some m) s h = inr (
    settle-IsEnded (err (search_error m))
      (clear_timeout (if is_empty text then s else record s { text = text })))
on_packet-IsOrderly text true none s h =
    let t = if is_empty text then s else record s { text = text } in
    inr (settle-IsEnded (ok t.text) (clear_timeout t))
on_packet-IsOrderly text false none s h = elim (Bool-cases (is_empty text)) [
  | inl t ↦ rw t h
  | inr f ↦ rw f h
]

-- The timeout ends a search.
timeout-IsEnded : (s : Search) → IsOrderly s → IsEnded (on_event timeout s)
unfolding on_event
timeout-IsEnded s (inl (f, p, n)) = rw p (fail-IsEnded _ s (inl (f, p, n)))
timeout-IsEnded s (inr (t, c, (r, a))) = elim (Bool-cases s.is_pending) [
  | inl p ↦ rw p (fail-IsEnded _ s (inr (t, c, (r, a))))
  | inr p ↦ rw p (t, c, (r, a))
]

on_event-IsOrderly : (e : SearchEvent) (s : Search) → IsOrderly s → IsOrderly (on_event e s)
unfolding on_event
on_event-IsOrderly timeout s h = inr (timeout-IsEnded s h)
on_event-IsOrderly error s h = inr (fail-IsEnded _ s h)
on_event-IsOrderly closed s h = inr (fail-IsEnded _ s h)
on_event-IsOrderly (opened (ok _)) s h = h
on_event-IsOrderly (opened (err m)) s h = inr (settle-IsEnded (err m) s)
on_event-IsOrderly (packet text is_complete failure) s h =
    on_packet-IsOrderly text is_complete failure s h
on_event-IsOrderly unreadable s h = h

on_events-IsOrderly :
    (es : List SearchEvent) (s : Search) → IsOrderly s → IsOrderly (on_events es s)
unfolding on_events
on_events-IsOrderly [] s h = h
on_events-IsOrderly (e ∷ es) s h = on_events-IsOrderly es (on_event e s) (on_event-IsOrderly e s h)

on_events-append :
    (es ds : List SearchEvent) (s : Search) → on_events (es ++ ds) s ≡ on_events ds (on_events es s)
unfolding on_events
on_events-append [] ds s = refl
on_events-append (e ∷ es) ds s = on_events-append es ds (on_event e s)

-- The answer that was given first stays.
on_event-answer :
    (e : SearchEvent) (s : Search) (r : Result String)
    → s.answer ≡ some r
    → (on_event e s).answer ≡ some r
unfolding on_event on_packet fail_unless_settled
on_event-answer timeout s r h = ground (arith, h)
on_event-answer error s r h = ground (arith, h)
on_event-answer closed s r h = ground (arith, h)
on_event-answer (opened (ok _)) s r h = h
on_event-answer (opened (err message)) s r h = rw h refl
on_event-answer (packet text is_complete (some x)) s r h = ground (arith, h)
on_event-answer (packet text is_complete none) s r h = ground (arith, h)
on_event-answer unreadable s r h = h

on_events-answer :
    (es : List SearchEvent) (s : Search) (r : Result String)
    → s.answer ≡ some r
    → (on_events es s).answer ≡ some r
unfolding on_events
on_events-answer [] s r h = h
on_events-answer (e ∷ es) s r h = on_events-answer es (on_event e s) r (on_event-answer e s r h)

-- Whatever comes from the socket of a web search, and however often, the search has an answer and its
-- socket is closed when the timeout has passed, and what comes after that changes neither the answer
-- nor which text or error the tool reports.
pub await_search-Settled :
    (before after : List SearchEvent)
    → let s = on_events (before ++ timeout ∷ []) new_search in
      (s.is_closed ≡ true)
      × (s.answer ≡ some (await_search before))
      × ((on_events after s).answer ≡ some (await_search before))
unfolding await_search on_events
await_search-Settled before after =
    let s = on_events before new_search in
    let orderly = on_events-IsOrderly before new_search (inl (refl, refl, refl)) in
    let (_, shut, (r, a)) = timeout-IsEnded s orderly in
    let ended = on_events-append before (timeout ∷ []) new_search in
    let given_ : (on_events (before ++ timeout ∷ []) new_search).answer ≡ some r =
      ap (λ t. t.answer) ended ∙ a in
    let same : r ≡ await_search before = sym (ap (λ o. get_or o (err "")) given_) in
    (
      ap (λ t. t.is_closed) ended ∙ shut,
      given_ ∙ ap some same,
      on_events-answer after _ r given_ ∙ ap some same,
    )
