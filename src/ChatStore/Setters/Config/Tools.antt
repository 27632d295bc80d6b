-- ===== src/ChatStore/Setters/Config/Tools.antt =====
-- The selected tools stay within the model's limit, and a tool is toggled on and off.
use gpt.Prelude.{
  length-filter, ◌≤◌, ◌<◌, ◌≡◌, refl, inl, inr, true, false, not, ◌&&◌, List, [], ◌∷◌, ◌++◌, arith,
  eq_refl, ◌==◌, ltb, Bool-cases, length, filter, length-append,
}
use gpt.Types.{Tool}
use gpt.ChatStore.State.{ChatState}
use gpt.ChatStore.Setters.Config.{max_tools, is_selected, toggle_tool}

-- If the selected tools are within the limit of the model, they still are after a toggle of any tool.
pub toggle_tool-limit :
    (tool : Tool) (s : ChatState)
    → length s.selected_tools ≤ max_tools s.selected_model
    → length (toggle_tool tool s).selected_tools ≤ max_tools (toggle_tool tool s).selected_model
unfolding toggle_tool
toggle_tool-limit tool s h = ground (
  arith,
  h,
  length-filter (λ (t : Tool). not (t.name == tool.name)) s.selected_tools,
  length-append s.selected_tools (tool ∷ []),
)

not_selected-filter :
    (tool : Tool) (ts : List Tool)
    → is_selected tool (filter (λ t. not (t.name == tool.name)) ts) ≡ false
unfolding is_selected
not_selected-filter tool [] = refl
not_selected-filter tool (t ∷ ts) = ground (arith, not_selected-filter tool ts)

selected-append : (tool : Tool) (ts : List Tool) → is_selected tool (ts ++ tool ∷ []) ≡ true
unfolding is_selected
selected-append tool [] = simp eq_refl
selected-append tool (t ∷ ts) = ground (arith, selected-append tool ts)

filter-unselected :
    (tool : Tool) (ts : List Tool)
    → is_selected tool ts ≡ false
    → filter (λ t. not (t.name == tool.name)) (ts ++ tool ∷ []) ≡ ts
unfolding is_selected
filter-unselected tool [] h = simp eq_refl
filter-unselected tool (t ∷ ts) h = ground (arith, filter-unselected tool ts)

-- A toggle of a selected tool takes it off; a toggle of another one selects it, if the model still
-- has room, and changes nothing if it has not.
pub toggle_tool-selects :
    (tool : Tool) (s : ChatState)
    → let t = toggle_tool tool s in
      is_selected tool t.selected_tools ≡ (
        not (is_selected tool s.selected_tools)
        && ltb (length s.selected_tools) (max_tools s.selected_model))
unfolding toggle_tool
toggle_tool-selects tool s = elim (Bool-cases (is_selected tool s.selected_tools)) [
  | inl on ↦ rw on (not_selected-filter tool s.selected_tools)
  | inr off ↦ elim (Bool-cases (ltb (length s.selected_tools) (max_tools s.selected_model))) [
    | inl room ↦ rw (off, room) (selected-append tool s.selected_tools)
    | inr full ↦ rw (off, full) off
  ]
]

-- If the tool is not selected and the model has room for it, two toggles in a row change nothing.
pub toggle_tool-twice :
    (tool : Tool) (s : ChatState)
    → is_selected tool s.selected_tools ≡ false
    → length s.selected_tools < max_tools s.selected_model
    → toggle_tool tool (toggle_tool tool s) ≡ s
unfolding toggle_tool
toggle_tool-twice tool s off room =
    let roomy : ltb (length s.selected_tools) (max_tools s.selected_model) ≡ true = ground arith in
    rw (off, roomy, selected-append tool s.selected_tools)
      (rw (filter-unselected tool s.selected_tools off) refl)
