-- ===== src/ChatStore/Messages/Tools/Again.antt =====
-- The tools of a message run once: with their results in the message, a second run takes these.
use gpt.Prelude.{
  String, ◌≡◌, refl, ◌⊎◌, inl, inr, Bool, false, some, List, [], ◌∷◌, eq_refl, ◌==◌, Bool-cases, ok,
  In, here, there, Result-cases,
}
use gpt.Types.{ToolCall, ToolResult}
use gpt.ChatStore.State.{ChatState}
use gpt.ChatStore.Messages.{Env}
use gpt.ChatStore.Messages.Tools.{
  ToolEnv, execute_tool, result, run_call, run_calls, stored_result, waiting_text, web_search,
}
use gpt.ChatStore.Messages.Tools.Stored.{Ensures, Fits, files_search-Fits, paired, web_search-HasId}

execute_tool-Fits :
    (env : Env) (tools : ToolEnv) (c : ToolCall) (s : ChatState)
    → Ensures (Fits c) (execute_tool env tools c s)
unfolding execute_tool result
execute_tool-Fits env tools c s = elim (Bool-cases (c.name == "files_search")) [
  | inl t ↦ rw t (files_search-Fits tools c)
  | inr f ↦ elim (Bool-cases (c.name == "web_search")) [
    | inl t ↦ rw (f, t) (paired c (web_search env tools c s) (web_search-HasId env tools c s))
    | inr g ↦ rw (f, g) (refl, tt)
  ]
]

run_call-Fits :
    (env : Env) (tools : ToolEnv) (s : ChatState) (c : ToolCall)
    → Fits c (run_call env tools [] s c)
unfolding run_call result
run_call-Fits env tools s c = elim (Result-cases (execute_tool env tools c s)) [
  | inl (r, e) ↦
      let fits = execute_tool-Fits env tools c s in
      let fit : Ensures (Fits c) (ok r) = rw e at fits in rw (run_call, e) fit
  | inr (message, e) ↦ rw (run_call, e) (refl, tt)
]

-- The id is that of no call of the list; and the calls have different ids.
abbrev IsOther : String → List ToolCall → Type 0
IsOther id [] = Unit {0}
IsOther id (c ∷ cs) = ((id == c.id) ≡ false) × IsOther id cs

abbrev pub Distinct : List ToolCall → Type 0
Distinct [] = Unit {0}
Distinct (c ∷ cs) = IsOther c.id cs × Distinct cs

-- The results that a list of results has for the calls.
abbrev Finds : List ToolResult → List ToolCall → List ToolResult → Type 0
Finds stored [] [] = Unit {0}
Finds stored [] (r ∷ rs) = ⊥
Finds stored (c ∷ cs) [] = ⊥
Finds stored (c ∷ cs) (r ∷ rs) = (stored_result c stored ≡ some r) × Finds stored cs rs

Finds-more :
    (r : ToolResult) (stored : List ToolResult) (cs : List ToolCall) (rs : List ToolResult)
    → IsOther r.tool_call_id cs
    → Finds stored cs rs
    → Finds (r ∷ stored) cs rs
Finds-more r stored [] [] o h = tt
Finds-more r stored [] (q ∷ rs) o h = elim h [ ]
Finds-more r stored (c ∷ cs) [] o h = elim h [ ]
Finds-more r stored (c ∷ cs) (q ∷ rs) (o, os) (h, hs) = (rw o h, Finds-more r stored cs rs os hs)

run_calls-Finds :
    (env : Env) (tools : ToolEnv) (s : ChatState) (cs : List ToolCall)
    → Distinct cs
    → let rs = (run_calls env tools [] s cs).0 in Finds rs cs rs
unfolding run_calls
run_calls-Finds env tools s [] d = tt
run_calls-Finds env tools s (c ∷ cs) (o, d) =
    let r = (run_call env tools [] s c).0 in
    let rs = (run_calls env tools [] s cs).0 in
    let (same, _) = run_call-Fits env tools s c in
    (
      rw (same, eq_refl c.id) refl,
      Finds-more r rs cs rs (rw same o) (run_calls-Finds env tools s cs d),
    )

Finds-again :
    (env : Env) (tools : ToolEnv) (s : ChatState) (stored : List ToolResult) (cs : List ToolCall)
    (rs : List ToolResult)
    → Finds stored cs rs
    → run_calls env tools stored s cs ≡ (rs, false)
unfolding run_calls run_call
Finds-again env tools s stored [] [] h = refl
Finds-again env tools s stored [] (r ∷ rs) h = elim h [ ]
Finds-again env tools s stored (c ∷ cs) [] h = elim h [ ]
Finds-again env tools s stored (c ∷ cs) (r ∷ rs) (h, hs) =
    rw (run_call, h, Finds-again env tools s stored cs rs hs) refl

-- No call was queued, or a result says that it waits.
abbrev pub Waits : List ToolResult × Bool → Type 0
Waits (rs, queued) = (queued ≡ false) ⊎ ((r : ToolResult) × In r rs × (r.content ≡ waiting_text))

run_calls-Waits :
    (env : Env) (tools : ToolEnv) (s : ChatState) (cs : List ToolCall)
    → Waits (run_calls env tools [] s cs)
unfolding run_calls
run_calls-Waits env tools s [] = inl refl
run_calls-Waits env tools s (c ∷ cs) =
    let r = (run_call env tools [] s c).0 in
    let fit = run_call-Fits env tools s c in
    elim (Bool-cases (run_call env tools [] s c).1) [
      | inl t ↦ let waits : r.content ≡ waiting_text = (rw t at fit.1) in inr (r, here, waits)
      | inr f ↦ elim (run_calls-Waits env tools s cs) [
        | inl g ↦ inl (rw (f, g) refl)
        | inr (q, i, w) ↦ inr (q, there i, w)
      ]
    ]

-- The tools of a message run once. When the results of its calls, which have different ids, are in the
-- message, a second run gives the same results and queues nothing, whatever the vault, the nodes and
-- the search index have become. A run that queues a call puts the text that it waits for the index
-- among these results, so the second run, which the queue starts when the index is ready, gives that
-- text again.
pub run_calls-again :
    (env later : Env) (tools later_tools : ToolEnv) (s u : ChatState) (cs : List ToolCall)
    → Distinct cs
    → let (results, queued) = run_calls env tools [] s cs in
      (run_calls later later_tools results u cs ≡ (results, false)) × Waits (results, queued)
run_calls-again env later tools later_tools s u cs d = (
  Finds-again later later_tools u _ cs _ (run_calls-Finds env tools s cs d),
  run_calls-Waits env tools s cs,
)
