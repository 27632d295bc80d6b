-- ===== src/ChatStore/Messages/Tools/Stored.antt =====
-- The results of the tools are kept: the tools of a message run once.
use gpt.Prelude.{
  String, ◌≡◌, refl, inl, inr, Bool, false, not, ◌&&◌, List, [], ◌∷◌, ◌==◌, eqb, if◌then◌else◌,
  Bool-cases, get_or, Result, ok, err, length, find?, values, ◌^^◌, is_empty, given, ◌>>=◌, ensure,
  need,
}
use gpt.Types.{ToolCall, ToolResult}
use gpt.ChatStore.State.{ChatState}
use gpt.ChatStore.Nodes.Pick.{pick_node_for_model}
use gpt.ChatStore.WebSocket.Url.{build_web_socket_url}
use gpt.ChatStore.Messages.WebSearch.{await_search}
use gpt.ChatStore.Messages.{Env}
use gpt.ChatStore.Messages.Tools.{
  SearchResult, ToolEnv, concat, is_online, report, search_model_id, files_search, has_words,
  must_wait, result, search_files, text_files, waiting_text, web_search,
}

-- What is returned, if nothing is thrown, satisfies `P`.
abbrev pub Ensures : {A : Type 0} → (A → Type 0) → Result A → Type 0
Ensures P (ok a) = P a
Ensures P (err message) = Unit {0}

bind-Ensures :
    {A B : Type 0} (P : B → Type 0) (step : Result A) (f : A → Result B)
    → ((a : A) → Ensures P (f a))
    → Ensures P (step >>= f)
bind-Ensures P (ok a) f h = h a
bind-Ensures P (err message) f h = tt

-- The result of a call has the id of the call, and a call that is queued has the text that it waits.
abbrev pub Fits : ToolCall → ToolResult × Bool → Type 0
Fits c (r, queued) =
    (r.tool_call_id ≡ c.id) × (if queued then (r.content ≡ waiting_text) else Unit {0})

abbrev pub HasId : ToolCall → ToolResult → Type 0
HasId c r = r.tool_call_id ≡ c.id

report-HasId :
    (tools : ToolEnv) (c : ToolCall) (found : List (SearchResult × String))
    → HasId c (report tools c found)
unfolding report result
report-HasId tools c [] = refl
report-HasId tools c (r ∷ rs) = refl

search_files-HasId :
    (tools : ToolEnv) (c : ToolCall) (query : String)
    → Ensures (HasId c) (search_files tools c query)
unfolding search_files result
search_files-HasId tools c query =
    let chunks = concat (values tools.files.searchable_chunks) in
    elim (Bool-cases (eqb (length chunks) 0)) [
      | inl t ↦ rw t refl
      | inr f ↦ rw f (
          bind-Ensures (HasId c) (tools.run_hybrid_search query chunks) _
            (λ raw. report-HasId tools c _))
    ]

pub paired :
    (c : ToolCall) (r : Result ToolResult)
    → Ensures (HasId c) r
    → Ensures (Fits c) (r >>= λ a. ok (a, false))
paired c (ok a) h = (h, tt)
paired c (err message) h = tt

pub files_search-Fits : (tools : ToolEnv) (c : ToolCall) → Ensures (Fits c) (files_search tools c)
unfolding files_search result
files_search-Fits tools c = bind-Ensures (Fits c) (tools.parse c.arguments) _ (λ query.
    bind-Ensures (Fits c) (ensure (has_words query) _) _ (λ _.
      elim (Bool-cases (eqb (length (text_files tools.files)) 0)) [
        | inl t ↦ rw t (refl, tt)
        | inr f ↦ elim (Bool-cases (must_wait tools.files)) [
          | inl t ↦ rw (f, t) (refl, refl)
          | inr g ↦
              rw (f, g)
                (paired c (search_files tools c (get_or query ""))
                  (search_files-HasId tools c (get_or query "")))
        ]
      ]))

pub web_search-HasId :
    (env : Env) (tools : ToolEnv) (c : ToolCall) (s : ChatState)
    → Ensures (HasId c) (web_search env tools c s)
unfolding web_search result
web_search-HasId env tools c s =
    let model = find? (λ m. m.model_id == search_model_id) tools.models in
    bind-Ensures (HasId c) (tools.parse c.arguments) _ (λ query.
      let prompt = tools.compile_web query in
      bind-Ensures (HasId c) (ensure (has_words query && not (is_empty prompt)) _) _ (λ _.
        elim (Bool-cases (is_online model)) [
          | inr f ↦ rw f refl
          | inl t ↦ rw t (
              bind-Ensures (HasId c)
                (need (pick_node_for_model env.picked_at env.draw search_model_id s) _) _
                (λ n. bind-Ensures (HasId c) (need (given n.public_key) _) _ (λ key.
                  bind-Ensures (HasId c) (env.derive_key tools.search_salt) _ (λ _.
                    bind-Ensures (HasId c) (env.encrypt prompt) _ (λ content.
                      bind-Ensures (HasId c) (env.wrap key) _ (λ wrapped.
                        bind-Ensures (HasId c) (tools.create_search content n.node_id wrapped) _
                          (λ job_id.
                            bind-Ensures (HasId c) (build_web_socket_url n.address) _ (λ url.
                              bind-Ensures (HasId c)
                                (await_search (tools.socket (url ^^ "/conversation/ws") job_id)) _
                                (λ text. refl)))))))))
        ]))
