-- ===== src/ChatStore/WebSocket/Handler.antt =====
-- webSocket/messageHandler.ts: the packets of a job's stream. They are gathered, and one frame of the
-- browser shows the last of them. The decryption and the parser of a packet are `decode`, and the text
-- of an error is `stringify`, since both stand outside the source.
pub mod Batching
pub mod Streams
use gpt.Prelude.{
  ℕ, String, Bool, true, false, not, ◌&&◌, ◌||◌, Option, none, some, [], ◌==◌, if◌then◌else◌,
  is_some, or_else, truthy, Result, ok, err, any, Dict, lookup, insert, ◌^^◌, trim, ends_with,
  after_first,
}
use gpt.Types.{Message, TokenUsage}
use gpt.Mappers.ErrorStatus.{BackendErrorStatus, normalize_error_status, same_error, same_usage}
use gpt.ChatStore.State.{ChatState, World, fetch_messages, set_state, set_timeout, close_socket}
use gpt.ChatStore.Setters.Status.{
  set_active_chat_job, clear_active_chat_job, set_flags, set_is_waiting,
}
use gpt.ChatStore.WebSocket.Find.{find_entry, is_of_job}
use gpt.ChatStore.WebSocket.Failure.{settle_ocr, handle_web_socket_error}

pub record StreamedResponse : Type 0 where
  pub text : String
  pub is_complete : Bool
  pub error_status : Option BackendErrorStatus
  pub usage : Option TokenUsage

-- The variables that the three functions of one handler share.
pub record Handler : Type 0 where
  pub latest_message_data : Option StreamedResponse
  pub is_update_scheduled : Bool
  pub animation_frame_id : Option ℕ
  pub received_final_message : Bool

abbrev pub new_handler : Handler
new_handler = record {
  latest_message_data = none;
  is_update_scheduled = false;
  animation_frame_id = none;
  received_final_message = false;
}

unfoldable pub has_text_content : StreamedResponse → Bool
has_text_content d = not (trim d.text == "")

unfoldable pub has_only_reasoning : StreamedResponse → Bool
unfolding has_text_content
has_only_reasoning d =
    has_text_content d
    && ends_with (trim d.text) "</think>"
    && trim (after_first d.text "</think>") == ""

unfoldable pub is_likely_tool_call : StreamedResponse → Bool
is_likely_tool_call d =
    d.is_complete
    && not (is_some d.error_status)
    && (not (has_text_content d) || has_only_reasoning d)

unfoldable pub should_set_complete : StreamedResponse → Bool
should_set_complete d = d.is_complete && not (is_likely_tool_call d)

-- A packet after which no other is expected.
abbrev pub is_final : StreamedResponse → Bool
is_final d = d.is_complete || is_some d.error_status

unfoldable pub updated_ai_message : ℕ → StreamedResponse → Message → Message
updated_ai_message now d m = record m {
  content = d.text;
  updated_at = now;
  is_complete = some (should_set_complete d || is_some (normalize_error_status d.error_status));
  error_status = or_else (normalize_error_status d.error_status) m.error_status;
  usage = or_else d.usage m.usage;
}

abbrev pub same_flag : Option Bool → Option Bool → Bool
same_flag none none = true
same_flag (some true) (some true) = true
same_flag (some false) (some false) = true
same_flag _ _ = false

unfoldable pub has_changed : Message → Message → Bool
has_changed old new =
    not (old.content == new.content)
    || not (same_flag old.is_complete new.is_complete)
    || not (same_error old.error_status new.error_status)
    || not (same_usage old.usage new.usage)

pub is_now_generating : Message → Bool
is_now_generating m = not (truthy m.is_complete) && not (is_some m.error_status)

-- The update of the message that was found under `target_id`.
pub show_packet :
    ℕ → String → StreamedResponse → Dict Message → String × Message → ChatState → ChatState
unfolding has_changed
show_packet now chat_id d m (target_id, old) s =
    let new = updated_ai_message now d old in
    if has_changed old new
    then set_flags chat_id (is_now_generating new) (is_now_generating new) false
        (record s { messages = insert chat_id (insert target_id new m) s.messages })
    else if truthy (lookup chat_id s.is_waiting)
    then set_is_waiting chat_id false s
    else s

-- No message of the job is there: a final packet is fetched again in half a second.
refetch : String → StreamedResponse → World → World
refetch chat_id d w = if is_final d then set_timeout (fetch_messages chat_id 500) w else w

update_map : ℕ → String → String → StreamedResponse → Option (Dict Message) → World → World
unfolding refetch
update_map now chat_id job_id d (some m) w = elim (find_entry (is_of_job job_id) m) [
  | none ↦ refetch chat_id d w
  | some found ↦ set_state (show_packet now chat_id d m found) w
]
update_map now chat_id job_id d none w =
    if any (λ c. c.chat_id == chat_id) w.store.chats
    then set_state (λ s. record s { messages = insert chat_id [] s.messages }) (refetch chat_id d w)
    else w

-- `ocrPromise.reject(…)` on an error, `ocrPromise.resolve(text)` else.
abbrev pub ocr_outcome : (BackendErrorStatus → String) → StreamedResponse → Result String
ocr_outcome stringify d = elim d.error_status [
  | none ↦ ok d.text
  | some e ↦ err ("OCR generation failed: " ^^ stringify e)
]

quiet_flags : String → StreamedResponse → ChatState → ChatState
quiet_flags chat_id d s = if is_likely_tool_call d then s else set_flags chat_id false false false s

end_job : String → String → Bool → ChatState → ChatState
end_job chat_id job_id errored s =
    if errored then set_active_chat_job chat_id job_id true s else clear_active_chat_job chat_id s

stop_stream : String → String → ℕ → StreamedResponse → World → World
stop_stream chat_id job_id ws d w = close_socket ws (
    set_state (end_job chat_id job_id (is_some d.error_status))
      (set_state (quiet_flags chat_id d) w))

-- What follows the update after a final packet.
finish : (BackendErrorStatus → String) → String → String → ℕ → StreamedResponse → World → World
finish stringify chat_id job_id ws d w =
    set_timeout (fetch_messages chat_id 1000)
      (settle_ocr job_id (ocr_outcome stringify d) (stop_stream chat_id job_id ws d w))

module _ (decode : String → Result StreamedResponse) (stringify : BackendErrorStatus → String)
    (chat_id job_id : String) (ws : ℕ) where
  pub apply_packet : ℕ → StreamedResponse → World → World
  unfolding update_map finish
  apply_packet now d w =
      let shown = update_map now chat_id job_id d (lookup chat_id w.store.messages) w in
      if is_final d then finish stringify chat_id job_id ws d shown else shown

  pub process_batched_update : ℕ → Handler × World → Handler × World
  unfolding apply_packet
  process_batched_update now (h, w) = elim h.latest_message_data [
    | none ↦ (record h { is_update_scheduled = false; animation_frame_id = none }, w)
    | some d ↦ (
      record h {
        is_update_scheduled = false;
        animation_frame_id = none;
        latest_message_data = none;
      },
      apply_packet now d w,
    )
  ]

  -- `frame` is the handle that `requestAnimationFrame` gives.
  receive : ℕ → ℕ → Result StreamedResponse → Handler × World → Handler × World
  receive now frame (err message) (h, w) = (
    record h { animation_frame_id = none },
    close_socket ws (
        handle_web_socket_error now chat_id job_id ("WebSocket message error: " ^^ message) false
          none w),
  )
  receive now frame (ok d) (h, w) = (
    record h {
      received_final_message = d.is_complete || h.received_final_message;
      latest_message_data = some d;
      is_update_scheduled = true;
      animation_frame_id = if h.is_update_scheduled then h.animation_frame_id else some frame;
    },
    w,
  )

  pub on_message : ℕ → ℕ → String → Handler × World → Handler × World
  unfolding receive
  on_message now frame packet hw = receive now frame (decode packet) hw

  -- The frame that is cancelled does not fire; its handle stays in the variable.
  pub cancel : ℕ → Handler × World → Handler × World
  unfolding process_batched_update
  cancel now (h, w) = elim h.latest_message_data [
    | none ↦ (h, w)
    | some _ ↦ process_batched_update now (h, w)
  ]
