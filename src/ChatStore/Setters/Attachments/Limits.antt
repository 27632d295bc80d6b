-- ===== src/ChatStore/Setters/Attachments/Limits.antt =====
-- The images stay within the model's limit, and the timer that clears them is the only one.
use gpt.Prelude.{ℕ, suc, ◌+◌, ◌-◌, ◌≤◌, String, ◌≡◌, refl, List, [], ◌∷◌, ◌++◌, arith}
use gpt.Types.{Attachment}
use gpt.ChatStore.State.{ChatState, World}
use gpt.ChatStore.Setters.Attachments.{
  image_limit, count_images, new_attachments, add_attachments, clear_timer,
  cancel_attachment_cleanup, clear_attachments_now,
}

count_images-append :
    (xs ys : List Attachment) → count_images (xs ++ ys) ≡ count_images xs + count_images ys
unfolding count_images
count_images-append [] ys = omega arith
count_images-append (x ∷ xs) ys = ground (arith, count_images-append xs ys)

new_attachments-count :
    (show random : ℕ → String) (i slots : ℕ) (fs : List Attachment)
    → count_images (new_attachments show random i slots fs) ≤ slots
unfolding new_attachments count_images
new_attachments-count show random i slots [] = omega arith
new_attachments-count show random i slots (f ∷ fs) = ground (
  arith,
  new_attachments-count show random (suc i) (slots - 1) fs,
  new_attachments-count show random (suc i) slots fs,
)

-- If the images of the next message are within the limit of the model, they still are after files
-- are added, however many.
pub add_attachments-limit :
    (show random : ℕ → String) (files : List Attachment) (s : ChatState)
    → count_images s.attachments ≤ image_limit s.selected_model
    → let t = add_attachments show random files s in
      count_images t.attachments ≤ image_limit t.selected_model
unfolding add_attachments
add_attachments-limit show random files s h =
    let slots = image_limit s.selected_model - count_images s.attachments in
    let new = new_attachments show random 0 slots files in
    ground (
      arith,
      h,
      new_attachments-count show random 0 slots files,
      count_images-append s.attachments new,
    )

pub cancel_attachment_cleanup-sockets :
    (w : World) → (cancel_attachment_cleanup w).sockets ≡ w.sockets
unfolding cancel_attachment_cleanup clear_timer
cancel_attachment_cleanup-sockets w = ground arith

pub clear_attachments_now-sockets : (w : World) → (clear_attachments_now w).sockets ≡ w.sockets
unfolding clear_attachments_now
clear_attachments_now-sockets w = refl
