-- ===== src/ChatStore/Tests/Tools.antt =====
-- The theorems on tools: an answer that calls for a search of the files, whose index is stale.
use gpt.Prelude.{
  String, ◌≡◌, refl, ◌⊎◌, true, false, none, some, List, [], ◌∷◌, ◌++◌, ltb, ok, lookup, drop_text,
  is_space, trim_start, trim_end, trim, take_units,
}
use gpt.Types.{ToolCall}
use gpt.FileStore.State.{FileItem, FileSystemState}
use gpt.ChatStore.State.{World, set_state}
use gpt.ChatStore.Nodes.Pick.{NodeChoice, choose, is_blacklisted, is_suitable, pick_node_for_model}
use gpt.ChatStore.Ocr.{execute_ocr_on_images, ocr_request, start_ocr}
use gpt.ChatStore.Messages.{connect, transform_attachments_for_backend}
use gpt.ChatStore.Messages.WebSearch.{
  SearchEvent, await_search, closed, new_search, on_event, on_events, opened, packet, timeout,
}
use gpt.ChatStore.Messages.WebSearch.Settled.{await_search-Settled}
use gpt.ChatStore.Messages.Tools.{ToolEnv, run_calls}
use gpt.ChatStore.Messages.Tools.Again.{Waits, run_calls-again}
use gpt.ChatStore.Messages.Continue.{
  Backend, change_message, is_queued, run_and_continue_from_tools, with_error,
}
use gpt.ChatStore.Messages.Continue.Outcome.{IsContinued, finish, run_and_continue-Outcome}
use gpt.ChatStore.Messages.Create.{NewChat, TitleRequest}
use gpt.ChatStore.TitleGeneration.{
  TitleEnv, after_any_case, cleaned_title, generate_title_for_chat, make_temporary_chat, not_made,
  starts_with_any_case, without_marks, without_thinking,
}
use gpt.ChatStore.TitleGeneration.Kept.{IsTitled, after_polls, generate_title-IsTitled}
use gpt.ChatStore.Tests.{answers, model, answer, store}
use gpt.ChatStore.Tests.Messages.{env, idle_world}

abbrev note : FileItem
note = record {
  id = "f";
  name = "note.txt";
  size = 5;
  uploaded_at = 1;
  mime_type = "text/plain";
  parent_id = "root";
  chunks = [];
}

abbrev files : FileSystemState
files = record gpt.FileStore.State.initial_state { files = ("f", note) ∷ [] }

abbrev tools : ToolEnv
tools = record {
  parse = λ q. ok (some q);
  error_json = λ e. e;
  run_hybrid_search = λ q chunks. ok [];
  compile_web = λ q. "Search";
  search_salt = [];
  create_search = λ prompt node_id key. ok "j9";
  socket = λ url job_id. [];
  models = [];
  files = files;
}

abbrev calls : List ToolCall
calls =
    record { id = "t1"; name = "files_search"; arguments = "notes" }
    ∷ record { id = "t2"; name = "dance"; arguments = "" }
    ∷ []

run_calls-again_example :
    let (results, queued) = run_calls env tools [] store calls in
    (run_calls env tools results store calls ≡ (results, false)) × Waits (results, queued)
run_calls-again_example =
    run_calls-again env env tools tools store store calls ((refl, tt), (tt, tt))

abbrev backend : Backend
backend = record {
  store_tool_results = λ rs. ok tt;
  continue_from_tool_response = λ p. ok ("a3", "j3");
  later = λ w. w;
}

abbrev calling : World
calling = record idle_world {
  store = record idle_world.store {
    messages = ("c", ("a", record answer { tool_calls = some calls }) ∷ []) ∷ [];
  };
}

run_and_continue-Outcome_example :
    let v = run_and_continue_from_tools env tools backend "c" "a" calling in
    (lookup "c:a" v.store.is_processing_tools ≡ some false)
    × (((e : String) × (u : World) × (v
            ≡ finish "c" "a" (set_state (change_message "c" "a" (with_error e)) u)))
        ⊎ (is_queued "a" v.store ≡ true)
        ⊎ ((n : NodeChoice) × (ai_id job_id : String) × (opened : World) × (v
              ≡ finish "c" "a" (connect env "c" job_id n opened))
            × IsContinued "c" "a" ai_id job_id opened.store))
run_and_continue-Outcome_example = run_and_continue-Outcome env tools backend "c" "a" calling

abbrev events : List SearchEvent
events = opened (ok tt) ∷ packet "Found" false none ∷ packet "" true none ∷ closed ∷ []

await_search-Settled_example :
    let s = on_events (events ++ timeout ∷ []) new_search in
    (s.is_closed ≡ true)
    × (s.answer ≡ some (await_search events))
    × ((on_events (closed ∷ []) s).answer ≡ some (await_search events))
await_search-Settled_example = await_search-Settled events (closed ∷ [])

found : await_search events ≡ ok "Found"
unfolding await_search on_events on_event
found = refl

-- A title for a chat that the user has renamed.
abbrev title_env : TitleEnv
title_env = record {
  models = record model { is_featured = true } ∷ [];
  fill = λ text. text;
  salt = 9 ∷ [];
  create_chat = λ p. ok (record {
    chat_id = "t";
    ids = record { user_message_id = "tq"; ai_message_id = "ta"; job_id = "tj" };
  });
  get_message =
      λ id i. ok (record { is_complete = ltb 0 i; has_error = false; encrypted_content = 7 ∷ [] });
  decrypt = λ c. ok "<think>Hm</think> *A Title* ";
  later = λ w. w;
  renamed = answers (ok tt);
  fetched = answers (ok []);
}

abbrev title_request : TitleRequest
title_request = record { chat_id = "c"; first_message = "Hello?"; placeholder = "Hello?" }

generate_title-IsTitled_example :
    (generate_title_for_chat env title_env title_request idle_world ≡ (idle_world, not_made))
    ⊎ ((n : NodeChoice) × (made : NewChat) × (make_temporary_chat env title_env title_request
            idle_world.store
          ≡ ok (n, made))
        × IsTitled env title_env title_request
            (after_polls env title_env n made idle_world)
            (generate_title_for_chat env title_env title_request idle_world))
generate_title-IsTitled_example = generate_title-IsTitled env title_env title_request idle_world

titled : cleaned_title "<think>Hm</think> *A Title* " ≡ "A Title"
unfolding cleaned_title without_marks without_thinking starts_with_any_case after_any_case drop_text
    trim trim_start trim_end is_space take_units
titled = refl

-- The promise of a text recognition has the first free reference.
recognized :
    (execute_ocr_on_images env
      (ok [])
      "Read"
      []
      (λ p. ok (record {
        chat_id = "t";
        ids = record { user_message_id = "tq"; ai_message_id = "ta"; job_id = "tj" };
      }))
      "m"
      idle_world).1
    ≡ ok 1
unfolding execute_ocr_on_images ocr_request start_ocr pick_node_for_model choose is_suitable
    is_blacklisted lookup transform_attachments_for_backend
recognized = refl
