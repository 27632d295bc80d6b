-- ===== src/ChatStore/WebSocket/Handler/Batching.antt =====
-- Packets that arrive before a frame: the frame shows the last of them.
use gpt.Prelude.{ℕ, String, ◌≡◌, refl, ap, ◌∙◌, none, some, List, [], ◌∷◌, Result, ok}
use gpt.Mappers.ErrorStatus.{BackendErrorStatus}
use gpt.ChatStore.State.{World}
use gpt.ChatStore.WebSocket.Handler.{
  StreamedResponse, Handler, receive, on_message, process_batched_update, apply_packet,
}

module _ (decode : String → Result StreamedResponse) (stringify : BackendErrorStatus → String)
    (chat_id job_id : String) (ws now frame : ℕ) where
  -- The packets of a list arrive one after the other.
  abbrev pub on_messages : List String → Handler × World → Handler × World
  on_messages [] hw = hw
  on_messages (p ∷ ps) hw =
      on_messages ps (on_message decode stringify chat_id job_id ws now frame p hw)

  abbrev pub AllDecoded : List String → Type 0
  AllDecoded [] = Unit {0}
  AllDecoded (p ∷ ps) = ((d : StreamedResponse) × (decode p ≡ ok d)) × AllDecoded ps

  on_message-keeps :
      (p : String) (d : StreamedResponse) (hw : Handler × World)
      → decode p ≡ ok d
      → ((on_message decode stringify chat_id job_id ws now frame p hw).1 ≡ hw.1)
        × ((on_message decode stringify chat_id job_id ws now frame p hw).0.latest_message_data
            ≡ some d)
  unfolding on_message
  on_message-keeps p d hw e = rw (e, receive) (refl, refl)

  on_messages-keeps :
      (ps : List String) (hw : Handler × World) → AllDecoded ps → (on_messages ps hw).1 ≡ hw.1
  on_messages-keeps [] hw a = refl
  on_messages-keeps (p ∷ ps) hw ((d, e), a) =
      on_messages-keeps ps (on_message decode stringify chat_id job_id ws now frame p hw) a
      ∙ (on_message-keeps p d hw e).0

  process-latest :
      (later : ℕ) (d : StreamedResponse) (hw : Handler × World)
      → hw.0.latest_message_data ≡ some d
      → ((process_batched_update decode stringify chat_id job_id ws later hw).1
          ≡ apply_packet decode stringify chat_id job_id ws later d hw.1)
        × ((process_batched_update decode stringify chat_id job_id ws later
              hw).0.latest_message_data
            ≡ none)
  unfolding process_batched_update
  process-latest later d hw e = rw (e, process_batched_update) (refl, refl)

  -- If every packet since the last frame can be read, the next frame does to the store what the last
  -- of them does alone, and leaves none to show.
  pub process-on_messages :
      (later : ℕ) (ps : List String) (p : String) (d : StreamedResponse) (hw : Handler × World)
      → AllDecoded ps
      → decode p ≡ ok d
      → let after =
          process_batched_update decode stringify chat_id job_id ws later
            (on_message decode stringify chat_id job_id ws now frame p (on_messages ps hw)) in
        (after.1 ≡ apply_packet decode stringify chat_id job_id ws later d hw.1)
        × (after.0.latest_message_data ≡ none)
  process-on_messages later ps p d hw a e =
      let got = on_messages ps hw in
      let (same, last) = on_message-keeps p d got e in
      let (shown, empty) =
        process-latest later d (on_message decode stringify chat_id job_id ws now frame p got)
          last in
      (
        shown
            ∙ ap (apply_packet decode stringify chat_id job_id ws later d)
                (same ∙ on_messages-keeps ps hw a),
        empty,
      )
