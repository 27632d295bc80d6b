-- ===== src/ChatStore/Setters/Attachments/Timers.antt =====
-- The timer that clears the attachments is the only one of its kind.
use gpt.Prelude.{
  ℕ, ◌≡◌, refl, sym, ap, ◌∙◌, ◌⊎◌, inl, inr, Bool, true, false, not, Option, none, some, List, [],
  ◌∷◌, eqb, Bool-cases, Option-cases, length, filter, eqb_refl, filter-append, filter-swap,
}
use gpt.ChatStore.State.{World, Timer, clear_attachments}
use gpt.ChatStore.Setters.Attachments.{
  is_timer, clear_timer, schedule_attachment_cleanup, cancel_attachment_cleanup,
}

abbrev pub is_cleanup : Timer → Bool
is_cleanup (clear_attachments h delay) = true
is_cleanup _ = false

-- The timers that will clear the attachments.
abbrev pub cleanups : World → List Timer
cleanups w = filter is_cleanup w.timers

-- No such timer is pending, or only the one whose handle the store keeps.
abbrev pub OneCleanup : World → Type 0
OneCleanup w =
    (cleanups w ≡ [])
    ⊎ ((h : ℕ) × (delay : ℕ) × (cleanups w ≡ clear_attachments h delay ∷ [])
        × (w.store.attachment_cleanup_timer ≡ some h))

-- To clear the timer that the store keeps leaves none.
pub clear_timer-cleanups :
    (w : World) → OneCleanup w → cleanups (clear_timer w.store.attachment_cleanup_timer w) ≡ []
unfolding clear_timer is_timer
clear_timer-cleanups w one = elim (Option-cases w.store.attachment_cleanup_timer) [
  | inl e ↦ rw e (elim one [ inl none_ ↦ none_ | inr (h, delay, single, kept) ↦ cc ])
  | inr (k, e) ↦ rw e (
      filter-swap is_cleanup (λ t. not (is_timer k t)) w.timers ∙ (elim one [
        | inl none_ ↦ rw none_ refl
        | inr (h, delay, single, kept) ↦ let same : k ≡ h = cc in rw (single, same, eqb_refl h) refl
      ]))
]

pub schedule-OneCleanup :
    (delay : ℕ) (w : World) → OneCleanup w → OneCleanup (schedule_attachment_cleanup delay w)
unfolding schedule_attachment_cleanup
schedule-OneCleanup delay w one =
    let cleared = clear_timer w.store.attachment_cleanup_timer w in
    let gone = clear_timer-cleanups w one in
    elim (Bool-cases (eqb (length w.store.attachments) 0)) [
      | inl t ↦ rw t (inl gone)
      | inr f ↦ rw f (
          inr (
            w.next_handle,
            delay,
            filter-append is_cleanup cleared.timers (clear_attachments w.next_handle delay ∷ [])
                ∙ rw gone refl,
            refl,
          ))
    ]

pub cancel-cleanups : (w : World) → OneCleanup w → cleanups (cancel_attachment_cleanup w) ≡ []
unfolding cancel_attachment_cleanup
cancel-cleanups w one = elim (Option-cases w.store.attachment_cleanup_timer) [
  | inl e ↦ rw e (elim one [ inl none_ ↦ none_ | inr (h, delay, single, kept) ↦ cc ])
  | inr (k, e) ↦ rw e (sym (ap (λ o. cleanups (clear_timer o w)) e) ∙ clear_timer-cleanups w one)
]

clear_timer-store : (handle : Option ℕ) (w : World) → (clear_timer handle w).store ≡ w.store
unfolding clear_timer
clear_timer-store none w = refl
clear_timer-store (some h) w = refl

-- The cleanup of the attachments changes the store in two fields only.
pub schedule-store :
    (delay : ℕ) (w : World)
    → let s = (schedule_attachment_cleanup delay w).store in
      s ≡ record (w.store) {
        is_attachments_exiting = s.is_attachments_exiting;
        attachment_cleanup_timer = s.attachment_cleanup_timer;
      }
unfolding schedule_attachment_cleanup
schedule-store delay w = elim (Bool-cases (eqb (length w.store.attachments) 0)) [
  | inl t ↦ rw (t, clear_timer-store w.store.attachment_cleanup_timer w) refl
  | inr f ↦ rw (f, clear_timer-store w.store.attachment_cleanup_timer w) refl
]
