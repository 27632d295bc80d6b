-- ===== src/ChatStore/WebSocket/Handler/Streams.antt =====
-- What a final packet ends.
use gpt.Prelude.{
  ℕ, String, ◌≡◌, refl, ap, ◌∙◌, Bool, true, false, none, some, eq_refl, if◌then◌else◌, is_some,
  Result, lookup, lookup-insert, lookup-remove, eqb_refl,
}
use gpt.Mappers.ErrorStatus.{BackendErrorStatus}
use gpt.ChatStore.State.{ChatState, World, ReadyState, connecting, open_, closing, closed, is_live}
use gpt.ChatStore.Setters.Status.{set_active_chat_job, clear_active_chat_job}
use gpt.ChatStore.WebSocket.Failure.Effects.{
  settle_ocr-sockets, settle_ocr-store, settle_ocr-promises,
}
use gpt.ChatStore.WebSocket.Handler.{
  quiet_flags, end_job, stop_stream, StreamedResponse, is_final, apply_packet, finish, update_map,
  ocr_outcome,
}

close-not-live : (r : ReadyState) → is_live (if is_live r then closing else r) ≡ false
close-not-live connecting = refl
close-not-live open_ = refl
close-not-live closing = refl
close-not-live closed = refl

end_job-idle :
    (chat_id job_id : String) (errored : Bool) (s : ChatState)
    → let t = end_job chat_id job_id errored s in
      (lookup chat_id t.is_generating ≡ some false)
      × (lookup chat_id t.is_ai_typing ≡ some false)
      × (lookup chat_id t.is_waiting ≡ some false)
      × (lookup chat_id t.active_chat_jobs ≡ (
          if errored
          then some (record { job_id = job_id; errored_via_stream = some true })
          else none))
unfolding end_job set_active_chat_job clear_active_chat_job
end_job-idle chat_id job_id true s = simp (lookup-insert, eq_refl) (refl, refl, refl, refl)
end_job-idle chat_id job_id false s =
    simp (lookup-insert, lookup-remove, eq_refl) (refl, refl, refl, refl)

-- After a final packet the chat is idle: no flag is set, the job is gone or kept as failed, the
-- socket is no longer open, and no promise of the job is left.
finish-idle :
    (stringify : BackendErrorStatus → String) (chat_id job_id : String) (ws : ℕ)
    (d : StreamedResponse) (w : World)
    → let v = finish stringify chat_id job_id ws d w in
      (lookup chat_id v.store.is_generating ≡ some false)
      × (lookup chat_id v.store.is_ai_typing ≡ some false)
      × (lookup chat_id v.store.is_waiting ≡ some false)
      × (lookup chat_id v.store.active_chat_jobs ≡ (
          if is_some d.error_status
          then some (record { job_id = job_id; errored_via_stream = some true })
          else none))
      × (is_live (v.sockets ws) ≡ false)
      × (lookup job_id v.store.ocr_promises ≡ none)
unfolding finish stop_stream
finish-idle stringify chat_id job_id ws d w =
    let v = stop_stream chat_id job_id ws d w in
    let r = ocr_outcome stringify d in
    let (ps, e) = settle_ocr-store job_id r v in
    let (gen, typ, wait, job) = stopped in
    (
      ap (λ (s : ChatState). lookup chat_id s.is_generating) e ∙ gen,
      ap (λ (s : ChatState). lookup chat_id s.is_ai_typing) e ∙ typ,
      ap (λ (s : ChatState). lookup chat_id s.is_waiting) e ∙ wait,
      ap (λ (s : ChatState). lookup chat_id s.active_chat_jobs) e ∙ job,
      ap (λ (f : ℕ → ReadyState). is_live (f ws)) (settle_ocr-sockets job_id r v) ∙ shut,
      settle_ocr-promises job_id job_id r v ∙ rw (eq_refl job_id) refl,
    )
  where
    stopped :
        let t = (stop_stream chat_id job_id ws d w).store in
        (lookup chat_id t.is_generating ≡ some false)
        × (lookup chat_id t.is_ai_typing ≡ some false)
        × (lookup chat_id t.is_waiting ≡ some false)
        × (lookup chat_id t.active_chat_jobs ≡ (
            if is_some d.error_status
            then some (record { job_id = job_id; errored_via_stream = some true })
            else none))
    stopped = end_job-idle chat_id job_id (is_some d.error_status) (quiet_flags chat_id d w.store)

    shut : is_live ((stop_stream chat_id job_id ws d w).sockets ws) ≡ false
    shut = rw (eqb_refl ws) (close-not-live (w.sockets ws))

-- After a final packet the chat is idle: no flag is set, the job is gone or kept as failed, the
-- socket is no longer open, and no promise of the job is left. This holds for a tool call too.
pub apply_packet-idle :
    (decode : String → Result StreamedResponse) (stringify : BackendErrorStatus → String)
    (chat_id job_id : String) (ws now : ℕ) (d : StreamedResponse) (w : World)
    → is_final d ≡ true
    → let v = apply_packet decode stringify chat_id job_id ws now d w in
      (lookup chat_id v.store.is_generating ≡ some false)
      × (lookup chat_id v.store.is_ai_typing ≡ some false)
      × (lookup chat_id v.store.is_waiting ≡ some false)
      × (lookup chat_id v.store.active_chat_jobs ≡ (
          if is_some d.error_status
          then some (record { job_id = job_id; errored_via_stream = some true })
          else none))
      × (is_live (v.sockets ws) ≡ false)
      × (lookup job_id v.store.ocr_promises ≡ none)
unfolding apply_packet
apply_packet-idle decode stringify chat_id job_id ws now d w final = rw final (
    finish-idle stringify chat_id job_id ws d
      (update_map now chat_id job_id d (lookup chat_id w.store.messages) w))
