-- ===== src/ChatStore/Setters/Config.antt =====
-- setters/config.ts: the model, its tools and the parameters of a generation.
pub mod Tools
use gpt.Prelude.{
  ℕ, ◌-◌, max, String, Bool, true, not, Option, none, some, List, [], ◌∷◌, ◌++◌, ◌==◌, ltb,
  if◌then◌else◌, length, filter, any,
}
use gpt.Types.{Model, Tool, CompressionLevel, RenderMode}
use gpt.ChatStore.State.{ChatState}

-- `chatParameterOptions.context.min` of constants.tsx
abbrev pub context_min : ℕ
context_min = 1024

-- A context that would be negative is raised to the least one too.
handle_model_change : Option Model → ChatState → ChatState
handle_model_change none s = record s { selected_model = none; selected_tools = [] }
handle_model_change (some m) s = record s {
  selected_model = some m;
  max_output = m.max_output;
  max_context = max context_min (m.max_context - m.max_output);
  reasoning_effort = "medium";
}

pub set_temperature : ℕ → ChatState → ChatState
set_temperature t s = record s { temperature = t }

pub set_max_output : ℕ → ChatState → ChatState
set_max_output n s = record s { max_output = n }

pub set_max_context : ℕ → ChatState → ChatState
set_max_context n s = record s { max_context = n }

pub set_compression_level : CompressionLevel → ChatState → ChatState
set_compression_level l s = record s { compression_level = l }

pub set_render_mode : RenderMode → ChatState → ChatState
set_render_mode m s = record s { render_mode = m }

pub set_selected_model : Option Model → ChatState → ChatState
unfolding handle_model_change
set_selected_model m s = record (handle_model_change m s) { has_user_selected_model = true }

pub set_default_model : Option Model → ChatState → ChatState
unfolding handle_model_change
set_default_model m s = handle_model_change m s

abbrev pub max_tools : Option Model → ℕ
max_tools none = 0
max_tools (some m) = m.max_tools

unfoldable pub is_selected : Tool → List Tool → Bool
is_selected tool ts = any (λ t. t.name == tool.name) ts

pub toggle_tool : Tool → ChatState → ChatState
toggle_tool tool s =
    if is_selected tool s.selected_tools
    then record s { selected_tools = filter (λ t. not (t.name == tool.name)) s.selected_tools }
    else if ltb (length s.selected_tools) (max_tools s.selected_model)
    then record s { selected_tools = s.selected_tools ++ tool ∷ [] }
    else s

pub toggle_single_tool : Tool → ChatState → ChatState
toggle_single_tool tool s = record s {
  selected_tools = if is_selected tool s.selected_tools then [] else tool ∷ [];
}

pub set_reasoning_effort : String → ChatState → ChatState
set_reasoning_effort e s = record s { reasoning_effort = e }
