-- ===== src/ChatStore/Setters/Attachments.antt =====
-- setters/attachment.ts: the files that will go with the next message, and the timer that clears
-- them. `show` is the text of a number and `random` gives the text of each `Math.random()`,
-- for the ids of the new attachments.
pub mod Limits
pub mod Timers
use gpt.Prelude.{
  ℕ, suc, ◌-◌, String, Bool, true, false, not, ◌&&◌, Option, none, some, List, [], ◌∷◌, ◌++◌, ◌==◌,
  eqb, ltb, if◌then◌else◌, and_then, length, filter, find?, ◌^^◌, given,
}
use gpt.Types.{Attachment, AttachmentType, image, text, Model}
use gpt.ChatStore.State.{
  ChatState, World, Timer, clear_attachments, revoke_url, revoke_all_urls, set_state, set_timeout,
}

abbrev pub is_image : AttachmentType → Bool
is_image image = true
is_image text = false

abbrev pub image_limit : Option Model → ℕ
image_limit none = 0
image_limit (some m) = m.max_image_attachments

unfoldable pub count_images : List Attachment → ℕ
count_images as_ = length (filter (λ a. is_image a.type) as_)

-- The loop: `slots` is `availableSlots`, which counts down for each image. At 0 or below no image is
-- taken, so a count that would be negative is 0 here.
new_attachments : (ℕ → String) → (ℕ → String) → ℕ → ℕ → List Attachment → List Attachment
new_attachments show random i slots [] = []
new_attachments show random i slots (f ∷ fs) =
    let rest =
      new_attachments show random (suc i) (if is_image f.type then slots - 1 else slots) fs in
    if is_image f.type && ltb 0 slots
    then record f { id = f.name ^^ "-" ^^ show f.last_modified ^^ "-" ^^ random i } ∷ rest
    else rest

pub add_attachments : (ℕ → String) → (ℕ → String) → List Attachment → ChatState → ChatState
unfolding new_attachments
add_attachments show random files s =
    let slots = image_limit s.selected_model - count_images s.attachments in
    elim (new_attachments show random 0 slots files) [
      | [] ↦ s
      | a ∷ as_ ↦ record s {
        attachments = s.attachments ++ a ∷ as_;
        is_attachments_exiting = false;
      }
    ]

revoke_preview : Option Attachment → World → World
revoke_preview found w = elim (and_then found (λ a. given a.preview_url)) [
  | none ↦ w
  | some url ↦ set_timeout (revoke_url url 300) w
]

pub remove_attachment : String → World → World
unfolding revoke_preview
remove_attachment id w =
    set_state (λ s. record s { attachments = filter (λ a. not (a.id == id)) s.attachments })
      (revoke_preview (find? (λ a. a.id == id) w.store.attachments) w)

pub clear_attachments_now : World → World
clear_attachments_now w =
    set_state (λ s. record s { attachments = []; is_attachments_exiting = false })
      (set_timeout (revoke_all_urls 300) w)

-- `clearTimeout(handle)`
is_timer : ℕ → Timer → Bool
is_timer handle (clear_attachments h delay) = eqb h handle
is_timer handle _ = false

pub clear_timer : Option ℕ → World → World
unfolding is_timer
clear_timer none w = w
clear_timer (some handle) w = record w { timers = filter (λ t. not (is_timer handle t)) w.timers }

pub schedule_attachment_cleanup : ℕ → World → World
unfolding clear_timer
schedule_attachment_cleanup delay w =
    let cleared = clear_timer w.store.attachment_cleanup_timer w in
    if eqb (length w.store.attachments) 0 then cleared else record cleared {
      store = record (cleared.store) {
        is_attachments_exiting = true;
        attachment_cleanup_timer = some w.next_handle;
      };
      timers = cleared.timers ++ clear_attachments w.next_handle delay ∷ [];
      next_handle = suc w.next_handle;
    }

-- The callback of that timer.
pub cleanup_fires : World → World
unfolding clear_attachments_now
cleanup_fires w =
    set_state (λ s. record s { attachment_cleanup_timer = none }) (clear_attachments_now w)

pub cancel_attachment_cleanup : World → World
unfolding clear_timer
cancel_attachment_cleanup w = elim w.store.attachment_cleanup_timer [
  | none ↦ w
  | some handle ↦
      set_state (λ s. record s { attachment_cleanup_timer = none; is_attachments_exiting = false })
        (clear_timer (some handle) w)
]
