-- ===== src/ChatStore/TitleGeneration.antt =====
-- gpt_frontend/src/store/chatStore/actions/titleGeneration.ts: a title for a new chat, from a
-- temporary chat that is made for it. `fill` puts the message into TITLE_GENERATION_PROMPT
-- (constants/prompts.ts), `get_message` is the canister's answer to each poll, and `renamed` and
-- `fetched` are those of the renaming. The temporary chat has no system prompt, which is "".
pub mod Kept
use gpt.Prelude.{
  ℕ, zero, suc, ◌+◌, ◌-◌, ◌/◌, ◌^◌, ◌<◌, code, String, Bool, true, false, not, ◌&&◌, ◌||◌, Option,
  none, some, List, [], ◌∷◌, ◌==◌, eqb, ltb, leb, if◌then◌else◌, is_some, get_or, Result, ok, err,
  length, filter, get_elem?, ◌^^◌, is_empty, sort_by, drop_text, trim, units, take_units, given,
  drop_units, ◌>>=◌, ◌>>◌, ensure, need,
}
use Prim.Native.String.{count}
use gpt.Types.{Bytes, Chat, Model}
use gpt.ChatStore.State.{Call, ChatState, World, set_state}
use gpt.ChatStore.Chats.{rename_chat}
use gpt.ChatStore.Nodes.Pick.{NodeChoice}
use gpt.ChatStore.WebSocket.Connection.{connect_to_chain_web_socket}
use gpt.ChatStore.Messages.{Env, chat_of, choose_node, vault_is_open}
use gpt.ChatStore.Messages.Create.{CreateParams, NewChat, TitleRequest}

pub record Polled : Type 0 where
  pub is_complete : Bool
  pub has_error : Bool
  pub encrypted_content : Bytes

pub record TitleEnv : Type 0 where
  pub models : List Model
  pub fill : String → String
  pub salt : Bytes
  pub create_chat : CreateParams → Result NewChat
  pub get_message : String → ℕ → Result Polled
  pub decrypt : Bytes → Result String
  pub later : World → World
  pub renamed : Call (Unit {0})
  pub fetched : Call (List Chat)

-- The featured model that has a node and costs the least, the first of those.
unfoldable pub cheapest_featured_model : List Model → Option Model
cheapest_featured_model models =
    get_elem?
      (sort_by (λ m. m.input_token_price + m.output_token_price)
        (filter (λ m. ltb 0 m.node_count && m.is_featured) models))
      0

-- A long message is cut to its two ends.
unfoldable pub excerpt : String → String
excerpt text =
    if ltb 1000 (units text)
    then take_units 500 text ^^ "..." ^^ drop_units (units text - 500) text
    else text

-- `pollMessage`: one attempt after another, `i` of them made.
unfoldable pub poll_message : (ℕ → Result Polled) → (Bytes → Result String) → ℕ → ℕ → Option String
poll_message get decrypt zero i = none
poll_message get decrypt (suc attempts) i =
    let rest = poll_message get decrypt attempts (suc i) in
    elim (get i) [
      | err _ ↦ none
      | ok p ↦
          if p.has_error
          then none
          else (if p.is_complete && ltb 0 (length p.encrypted_content)
              then elim (decrypt p.encrypted_content) [ err _ ↦ none | ok t ↦ some t ]
              else rest)
    ]

-- A prefix in letters of either case, of which `t` has the small ones.
unfoldable pub starts_with_any_case : String → String → Bool
starts_with_any_case s String.[] = true
starts_with_any_case String.[] (String.◌∷◌ d t) = false
starts_with_any_case (String.◌∷◌ c s) (String.◌∷◌ d t) =
    let rest = starts_with_any_case s t in
    (eqb (code c) (code d) || (leb 97 (code d) && leb (code d) 122 && eqb (code c + 32) (code d)))
    && rest

-- What follows the first `t`, in letters of either case.
unfoldable pub after_any_case : String → String → Option String
after_any_case String.[] t = none
after_any_case (String.◌∷◌ c s) t =
    let rest = after_any_case s t in
    if starts_with_any_case (String.◌∷◌ c s) t
    then some (drop_text (count t) (String.◌∷◌ c s))
    else rest

-- `.replace(/<think>[\s\S]*?<\/think>/gi, "")`: `fuel` is at least the number of characters, and each
-- step takes one off or more.
unfoldable pub without_thinking : ℕ → String → String
without_thinking zero s = s
without_thinking (suc fuel) String.[] = ""
without_thinking (suc fuel) (String.◌∷◌ c s) =
    let kept = String.◌∷◌ c (without_thinking fuel s) in
    let closing = after_any_case (drop_text 7 (String.◌∷◌ c s)) "</think>" in
    let cut = without_thinking fuel (get_or closing "") in
    if starts_with_any_case (String.◌∷◌ c s) "<think>" && is_some closing then cut else kept

-- `.replace(/["*`“”_]/g, "")`
unfoldable pub without_marks : String → String
without_marks String.[] = ""
without_marks (String.◌∷◌ c s) =
    let rest = without_marks s in
    if eqb (code c) 34
      || eqb (code c) 42
      || eqb (code c) 96
      || eqb (code c) 8220
      || eqb (code c) 8221
      || eqb (code c) 95
    then rest
    else String.◌∷◌ c rest

unfoldable pub cleaned_title : String → String
cleaned_title text =
    take_units 50 (trim (without_marks (trim (without_thinking (count text) text))))

-- What becomes of the temporary chat: it is never made, left where it is, or its deletion is asked for.
pub data TemporaryChat : Type 0 where
  not_made left deleted : TemporaryChat

abbrev pub max_attempts : ℕ
max_attempts = 20

-- The steps up to the temporary chat. A missing model or node only ends the action, as an error does,
-- so both are errors here.
unfoldable pub make_temporary_chat :
    Env → TitleEnv → TitleRequest → ChatState → Result (NodeChoice × NewChat)
make_temporary_chat env t request s = do
  ensure (vault_is_open env) ""
  m ← need (cheapest_featured_model t.models) ""
  nk ← choose_node env m "" "Auto-title: Node missing public key." s
  env.derive_key t.salt
  content ← env.encrypt (t.fill (excerpt request.first_message))
  key ← env.wrap nk.1
  made ← t.create_chat (record {
    title = "Temporary Title Generation";
    initial_message = content;
    settings = record {
      model_id = m.model_id;
      node_id = nk.0.node_id;
      temperature = 2;
      max_completion_tokens = 500;
      max_context = m.max_context;
      tools = [];
      custom_prompt = "";
    };
    encrypted_chat_key = key;
    encryption_salt = t.salt;
    attachments = [];
    temporary = true;
  })
  ok (nk.0, made)

-- The socket of the temporary chat, which is not in the store: its salt goes along.
abbrev pub connect_temporary : Env → TitleEnv → NodeChoice → NewChat → World → World
connect_temporary env t n made w =
    (connect_to_chain_web_socket env.now env.access env.has_root_key env.derive_key env.construct
      made.chat_id made.ids.job_id (some n.address) (some n.node_id) n.public_key (some t.salt) w).0

-- The chat is there with another title than the one that it was given at first.
abbrev pub was_renamed : TitleRequest → ChatState → Bool
was_renamed request s = elim (chat_of request.chat_id s) [
  | none ↦ false
  | some c ↦ not (c.title == request.placeholder)
]

-- The part after the polls.
unfoldable pub use_title :
    Env → TitleEnv → TitleRequest → Option String → World → World × TemporaryChat
use_title env t request title w = elim (given title) [
  | none ↦ (w, deleted)
  | some text ↦
      if was_renamed request w.store
      then (w, left)
      else (if is_empty (cleaned_title text)
          then (w, deleted)
          else (let (s, done) =
                rename_chat env.now env.access t.renamed t.fetched request.chat_id
                  (cleaned_title text) w.store in
              (set_state (λ _. s) w, elim done [ ok _ ↦ deleted | err _ ↦ left ])))
]

unfoldable pub generate_title_for_chat :
    Env → TitleEnv → TitleRequest → World → World × TemporaryChat
unfolding use_title
generate_title_for_chat env t request w = elim (make_temporary_chat env t request w.store) [
  | err _ ↦ (w, not_made)
  | ok (n, made) ↦
      use_title env t request
        (poll_message (t.get_message made.ids.ai_message_id) t.decrypt max_attempts 0)
        (t.later (connect_temporary env t n made (env.meanwhile w)))
]
