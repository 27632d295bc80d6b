-- ===== src/ChatStore/Messages/Tools.antt =====
-- message/tool.ts: runAndContinueFromTools, which runs the tools that an answer calls for and sends
-- their results. What stands outside the source: `parse`, the query in the arguments of a call, which
-- throws on a text that is not JSON, and is `none` if the query is not a text; `error_json`, the JSON
-- of an error; and the ranking of the search.
mod Stored
pub mod Again
use gpt.Prelude.{
  ℕ, suc, ◌+◌, ◌-◌, ◌/◌, ◌^◌, String, Bool, true, false, not, ◌&&◌, ◌||◌, Option, none, some, List,
  [], ◌∷◌, ◌++◌, ◌==◌, eqb, ltb, if◌then◌else◌, get_or, Result, ok, err, length, filter, find?,
  take, Dict, lookup, insert, values, ◌^^◌, is_empty, trim, take_units, given, show, ◌>>=◌, ◌>>◌,
  ensure, need,
}
use gpt.Types.{
  Bytes, Message, MessageErrorStatus, Model, ToolCall, ToolResult, IndexingStatus, Chat,
}
use gpt.FileUtils.{is_text_mime_type}
use gpt.FileStore.State.{FileItem, FileSystemState, SearchableChunk}
use gpt.ChatStore.State.{ChatState, QueuedToolCall, World, set_state}
use gpt.ChatStore.Nodes.Pick.{NodeChoice, pick_node_for_model}
use gpt.ChatStore.Setters.Chat.{set_active_leaf}
use gpt.ChatStore.Setters.Status.{set_active_chat_job}
use gpt.ChatStore.WebSocket.Url.{build_web_socket_url}
use gpt.ChatStore.Messages.{
  Env, Settings, ai_message, chat_of, choose_node, connect, effort, settings, vault_is_open,
}
use gpt.ChatStore.Messages.WebSearch.{SearchEvent, await_search}

pub record SearchResult : Type 0 where
  pub id : String
  pub text : String

-- `compile_web` is the prompt for a search, which holds the date; `create_search` makes the temporary
-- chat for it, from the prompt, the node and the key, and gives its job; `socket` is what comes for a
-- job at an address.
pub record ToolEnv : Type 0 where
  pub parse : String → Result (Option String)
  pub error_json : String → String
  pub run_hybrid_search : String → List SearchableChunk → Result (List SearchResult)
  pub compile_web : Option String → String
  pub search_salt : Bytes
  pub create_search : Bytes → String → String → Result String
  pub socket : String → String → List SearchEvent
  pub models : List Model
  pub files : FileSystemState

unfoldable pub result : ToolCall → String → Option String → ToolResult
result c content error = record { tool_call_id = c.id; content = content; error = error }

-- A text that is not blank.
abbrev pub has_words : Option String → Bool
has_words none = false
has_words (some q) = not (is_empty (trim q))

unfoldable pub text_files : FileSystemState → List FileItem
text_files fs = filter (λ f. is_text_mime_type f.mime_type f.name) (values fs.files)

-- The index is stale, has fewer files than there are texts, or was not built.
unfoldable pub must_wait : FileSystemState → Bool
must_wait fs =
    fs.is_index_stale
    || ltb (length fs.searchable_chunks) (length (text_files fs))
    || elim fs.indexing_status [
      | IndexingStatus.idle ↦ true
      | IndexingStatus.in_progress ↦ true
      | _ ↦ false
    ]

unfoldable pub concat : {A : Type 0} → List (List A) → List A
concat [] = []
concat (xs ∷ xss) = xs ++ concat xss

abbrev pub join : List String → String
join [] = ""
join (x ∷ []) = x
join (x ∷ y ∷ rest) = x ^^ "\n\n" ^^ join (y ∷ rest)

-- `chunkToFileMap`: the name of the file of each chunk, by the text that the map is read with.
unfoldable pub add_chunk_names :
    FileItem → String → List SearchableChunk → Dict String → Dict String
add_chunk_names f file_id [] names = names
add_chunk_names f file_id (c ∷ cs) names =
    add_chunk_names f file_id cs
      (insert (file_id ^^ "-" ^^ show (c.chunk).chunk_index) f.name names)

unfoldable pub chunk_to_file_map :
    Dict FileItem → Dict (List SearchableChunk) → Dict String → Dict String
chunk_to_file_map files [] names = names
chunk_to_file_map files ((file_id, chunks) ∷ rest) names =
    chunk_to_file_map files rest (elim (lookup file_id files) [
      | none ↦ names
      | some f ↦ add_chunk_names f file_id chunks names
    ])

-- The results whose file is known, each with its name.
unfoldable pub with_info : Dict String → List SearchResult → List (SearchResult × String)
with_info names [] = []
with_info names (r ∷ rs) =
    let rest = with_info names rs in
    elim (lookup r.id names) [ none ↦ rest | some name ↦ (r, name) ∷ rest ]

unfoldable pub format_results : ℕ → List (SearchResult × String) → List String
format_results i [] = []
format_results i ((r, name) ∷ rs) =
    ("Result " ^^ show (suc i) ^^ ":\nSource File: \"" ^^ name ^^ "\"\n---\n" ^^ r.text ^^ "\n---")
    ∷ format_results (suc i) rs

unfoldable pub report : ToolEnv → ToolCall → List (SearchResult × String) → ToolResult
report env c [] = result c "No relevant information found." none
report env c (r ∷ rs) = result c (join (format_results 0 (r ∷ rs))) none

unfoldable pub search_files : ToolEnv → ToolCall → String → Result ToolResult
search_files env c query =
    let fs = env.files in
    let chunks = concat (values fs.searchable_chunks) in
    if eqb (length chunks) 0 then ok (result c "No searchable chunks found." none) else (do
      raw ← env.run_hybrid_search query chunks
      let names = chunk_to_file_map fs.files fs.searchable_chunks []
      ok (report env c (take 5 (with_info names raw))))

abbrev pub waiting_text : String
waiting_text = "The file index is being updated. I will provide an answer as soon as it's ready."

-- The result, and whether the call has to be queued.
unfoldable pub files_search : ToolEnv → ToolCall → Result (ToolResult × Bool)
files_search env c = do
  query ← env.parse c.arguments
  ensure (has_words query) "Invalid query for files_search."
  if eqb (length (text_files env.files)) 0
      then ok (result c "No searchable file content found." none, false)
      else (if must_wait env.files
          then ok (result c waiting_text none, true)
          else (do r ← search_files env c (get_or query ""); ok (r, false)))

abbrev pub search_model_id : String
search_model_id = "openrouter-sonar-pro-search"

abbrev pub is_online : Option Model → Bool
is_online none = false
is_online (some m) = not (eqb m.node_count 0)

unfoldable pub web_search : Env → ToolEnv → ToolCall → ChatState → Result ToolResult
web_search env tools c s = do
  query ← tools.parse c.arguments
  let prompt = tools.compile_web query
  ensure (has_words query && not (is_empty prompt)) "Invalid query for web_search."
  let model = find? (λ m. m.model_id == search_model_id) tools.models
  if is_online model
      then (do
        n ←
            need (pick_node_for_model env.picked_at env.draw search_model_id s)
              "No active nodes available for search model."
        key ← need (given n.public_key) "Node missing encryption key for search."
        env.derive_key tools.search_salt
        content ← env.encrypt prompt
        wrapped ← env.wrap key
        job_id ← tools.create_search content n.node_id wrapped
        url ← build_web_socket_url n.address
        text ← await_search (tools.socket (url ^^ "/conversation/ws") job_id)
        ok (
            result c
              ("Search Results for \"" ^^ get_or query "" ^^ "\":\n\n" ^^ take_units 100000 text)
              none))
      else ok (
          result c (tools.error_json "Search service unavailable (model not found or offline).")
            (some "Search service unavailable."))

-- The `switch` of one call.
unfoldable pub execute_tool : Env → ToolEnv → ToolCall → ChatState → Result (ToolResult × Bool)
execute_tool env tools c s =
    if c.name == "files_search"
    then files_search tools c
    else (if c.name == "web_search"
        then (do r ← web_search env tools c s; ok (r, false))
        else ok (
          result c (tools.error_json ("Tool '" ^^ c.name ^^ "' not recognized."))
              (some ("Tool '" ^^ c.name ^^ "' not found.")),
          false,
        ))

abbrev pub stored_result : ToolCall → List ToolResult → Option ToolResult
stored_result c rs = find? (λ r. r.tool_call_id == c.id) rs

-- A result that the message has is taken as it is; an error becomes a result.
unfoldable pub run_call : Env → ToolEnv → List ToolResult → ChatState → ToolCall → ToolResult × Bool
run_call env tools stored s c = elim (stored_result c stored) [
  | some r ↦ (r, false)
  | none ↦ elim (execute_tool env tools c s) [
    | ok r ↦ r
    | err e ↦ (result c (tools.error_json ("Tool failed: " ^^ e)) (some e), false)
  ]
]

-- `Promise.all` over the calls, and whether one of them has to be queued.
unfoldable pub run_calls :
    Env → ToolEnv → List ToolResult → ChatState → List ToolCall → List ToolResult × Bool
run_calls env tools stored s [] = ([], false)
run_calls env tools stored s (c ∷ cs) =
    let (r, queued) = run_call env tools stored s c in
    let (rs, later) = run_calls env tools stored s cs in (r ∷ rs, queued || later)
