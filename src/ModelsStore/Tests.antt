-- ===== src/ModelsStore/Tests.antt =====
-- The theorems on models at two models.
use gpt.Prelude.{refl, true, false, List, [], ◌∷◌, ok, err}
use gpt.Types.{Model, active}
use gpt.ModelsStore.{ModelsState, empty}
use gpt.ModelsStore.Split.{IsSplit, Action, starts, ends, counts, run, run-IsSplit}

abbrev dear : Model
dear = record {
  model_id = "dear";
  name = "Dear";
  provider = "p";
  maker = "p";
  node_count = 1;
  max_context = 8192;
  max_output = 1024;
  input_token_price = 3;
  output_token_price = 9;
  max_image_attachments = 4;
  max_tools = 1;
  status = active;
  is_reasoning = false;
  is_embedding = true;
  is_featured = false;
}

abbrev cheap : Model
cheap = record dear { model_id = "cheap"; input_token_price = 1 }

abbrev listed : ModelsState
listed = record empty { models = dear ∷ cheap ∷ []; image_models = dear ∷ cheap ∷ [] }

-- A fetch fails while another one is under way, and the counts arrive before its answer.
abbrev history : List Action
history =
    starts false
    ∷ starts true
    ∷ ends (err "offline")
    ∷ counts (("dear", 2) ∷ [])
    ∷ ends (ok (dear ∷ cheap ∷ []))
    ∷ []

run-IsSplit_example : IsSplit (run empty history)
run-IsSplit_example = run-IsSplit empty history (refl, refl)
