-- ===== src/ModelsStore.antt =====
-- gpt_frontend/src/store/modelsStore.ts: the models that the index lists. The two halves of a fetch are
-- actions of their own, since others may come between them.
pub mod Split
pub mod Choice
mod Tests
use gpt.Prelude.{
  ℕ, ◌+◌, String, Bool, true, false, not, ◌&&◌, Option, none, some, List, [], map, ◌==◌, eqb, ltb,
  if◌then◌else◌, is_some, get_or, Result, ok, err, filter, find?, any, get_elem?, Dict, lookup,
  sort_by,
}
use gpt.Types.{Model, ModelStatus, active}

abbrev pub default_embedding_model_id : String
default_embedding_model_id = "deepinfra-qwen3-embedding-8b"

pub record ModelsState : Type 0 where
  pub models : List Model
  pub image_models : List Model
  pub embedding_models : List Model
  pub loading : Bool
  pub has_fetched : Bool
  pub error : Option String

abbrev pub empty : ModelsState
empty = record {
  models = [];
  image_models = [];
  embedding_models = [];
  loading = false;
  has_fetched = false;
  error = none;
}

abbrev pub takes_images : Model → Bool
takes_images m = ltb 0 m.max_image_attachments

abbrev pub embeds : Model → Bool
embeds m = m.is_embedding

-- What `fetchModelsLogic` does before its call.
pub begin_loading : Bool → ModelsState → ModelsState
begin_loading force s =
    if not force && not s.has_fetched then record s { loading = true; error = none } else s

-- `fetchModels` up to the call; `none` if a fetch is under way and this one is not forced.
pub start_fetch : Bool → ModelsState → Option ModelsState
unfolding begin_loading
start_fetch force s = if not force && s.loading then none else some (begin_loading force s)

-- The rest of it, after the answer.
pub end_fetch : Result (List Model) → ModelsState → ModelsState
end_fetch (ok models) s = record s {
  models = models;
  image_models = filter takes_images models;
  embedding_models = filter embeds models;
  loading = false;
  has_fetched = true;
}
end_fetch (err message) s = record s { error = some message; loading = false }

-- `counts[model.modelId] ?? 0`
pub new_count : Dict ℕ → Model → ℕ
new_count counts m = get_or (lookup m.model_id counts) 0

pub with_count : Dict ℕ → Model → Model
unfolding new_count
with_count counts m = record m { node_count = new_count counts m }

pub update_node_counts : Dict ℕ → ModelsState → ModelsState
unfolding with_count new_count
update_node_counts counts s =
    let models = map (with_count counts) s.models in
    if any (λ m. not (eqb m.node_count (new_count counts m))) s.models
    then record s {
      models = models;
      image_models = filter takes_images models;
      embedding_models = filter embeds models;
    }
    else s

abbrev pub price : Model → ℕ
price m = m.input_token_price + m.output_token_price

pub get_cheapest_image_model : ModelsState → Option Model
get_cheapest_image_model s = get_elem? (sort_by price s.image_models) 0

abbrev pub is_active : ModelStatus → Bool
is_active active = true
is_active _ = false

abbrev pub is_available : Model → Bool
is_available m = ltb 0 m.node_count && is_active m.status

pub get_embedding_model : ModelsState → Option Model
get_embedding_model s =
    let by_default = find? (λ m. m.model_id == default_embedding_model_id) s.embedding_models in
    let others = find? is_available s.embedding_models in
    elim by_default [ none ↦ others | some m ↦ if is_available m then some m else others ]

pub is_embedding_model_available : ModelsState → Bool
unfolding get_embedding_model
is_embedding_model_available s = is_some (get_embedding_model s)
