-- ===== src/ChatStore/Ocr.antt =====
-- gpt_frontend/src/store/chatStore/actions/ocr.ts: the text of images, by a promise that the stream of a
-- job settles, or its failure, or a timeout. The images, processed and compressed, are `compressed`;
-- `prompt` is OCR_PROMPT_TEMPLATE (constants/prompts.ts).
use gpt.Prelude.{
  ℕ, suc, String, Bool, true, some, List, [], ◌∷◌, ◌++◌, eqb, if◌then◌else◌, Result, ok, err, any,
  ◌^^◌, given, ◌>>=◌, ◌>>◌, ensure, need,
}
use gpt.Types.{Attachment, Bytes}
use gpt.ChatStore.State.{ChatState, World, ocr_timeout, set_state, set_timeout}
use gpt.ChatStore.Nodes.Pick.{NodeChoice, pick_node_for_model}
use gpt.ChatStore.Setters.Chat.{add_ocr_promise, remove_ocr_promise}
use gpt.ChatStore.WebSocket.Connection.{connect_to_chain_web_socket}
use gpt.ChatStore.Messages.{Env, transform_attachments_for_backend, vault_is_open}
use gpt.ChatStore.Messages.Create.{CreateParams, NewChat}

module _ (env : Env) (compressed : Result (List Attachment)) (prompt : String) (salt : Bytes)
    (create_chat : CreateParams → Result NewChat) where
  -- The steps up to the promise. No system prompt is "".
  unfoldable pub ocr_request : String → ChatState → Result (NodeChoice × NewChat)
  ocr_request model_id s = do
    ensure (vault_is_open env) "User is not authenticated or Vault is locked."
    n ←
        need (pick_node_for_model env.picked_at env.draw model_id s)
          ("No available node for model " ^^ model_id ^^ ".")
    key ← need (given n.public_key) "Node missing public key for encryption."
    files ← compressed
    images ← transform_attachments_for_backend env.read files
    env.derive_key salt
    content ← env.encrypt prompt
    wrapped ← env.wrap key
    made ← create_chat (record {
      title = "Temporary OCR Chat";
      initial_message = content;
      settings = record {
        model_id = model_id;
        node_id = n.node_id;
        temperature = 1;
        max_completion_tokens = 4096;
        max_context = 8192;
        tools = [];
        custom_prompt = "";
      };
      encrypted_chat_key = wrapped;
      encryption_salt = salt;
      attachments = images;
      temporary = true;
    })
    ok (n, made)

  -- The body of the promise: its timeout, its callbacks in the store, and the socket of its job, which
  -- has the salt as its context.
  unfoldable pub start_ocr : NodeChoice → NewChat → World → World × ℕ
  start_ocr n made w =
      let promise = w.next_handle in
      let job_id = made.ids.job_id in
      (
        (connect_to_chain_web_socket env.now env.access env.has_root_key env.derive_key
            env.construct made.chat_id job_id (some n.address) (some n.node_id) n.public_key
            (some salt)
            (set_state (add_ocr_promise job_id promise) (
              set_timeout (ocr_timeout promise job_id 300000)
                (record w { next_handle = suc promise })))).0,
        promise,
      )

  -- The promise that the caller gets.
  unfoldable pub execute_ocr_on_images : String → World → World × Result ℕ
  unfolding start_ocr
  execute_ocr_on_images model_id w = elim (ocr_request model_id w.store) [
    | err e ↦ (env.meanwhile w, err e)
    | ok (n, made) ↦ let (v, promise) = start_ocr n made (env.meanwhile w) in (v, ok promise)
  ]

abbrev pub is_settled : ℕ → World → Bool
is_settled promise w = any (λ entry. eqb entry.0 promise) w.settled

-- The callback of the timeout. A promise that is settled has cleared it.
pub ocr_timeout_fires : ℕ → String → World → World
ocr_timeout_fires promise job_id w = if is_settled promise w then w else record w {
  settled = w.settled ++ (promise, err "OCR request timed out after 5 minutes.") ∷ [];
  store = remove_ocr_promise job_id w.store;
}
