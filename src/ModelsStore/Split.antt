-- ===== src/ModelsStore/Split.antt =====
-- The two lists of special models agree with the list of all of them.
use gpt.Prelude.{
  ℕ, ◌≡◌, refl, inl, inr, Bool, not, ◌&&◌, List, [], ◌∷◌, eqb, Bool-cases, get_or, Result, ok, err,
  filter, any, Dict,
}
use gpt.Types.{Model}
use gpt.ModelsStore.{
  ModelsState, empty, takes_images, embeds, start_fetch, end_fetch, new_count, update_node_counts,
}

-- The special models are exactly those of the list, in its order.
abbrev pub IsSplit : ModelsState → Type 0
IsSplit s =
    (s.image_models ≡ filter takes_images s.models) × (s.embedding_models ≡ filter embeds s.models)

-- The actions, with a fetch in its two halves.
pub data Action : Type 0 where
  starts : (force : Bool) → Action
  ends : Result (List Model) → Action
  counts : Dict ℕ → Action
  resets : Action

pub step : Action → ModelsState → ModelsState
step (starts force) s = get_or (start_fetch force s) s
step (ends answer) s = end_fetch answer s
step (counts by_model) s = update_node_counts by_model s
step resets s = empty

pub run : ModelsState → List Action → ModelsState
run s [] = s
run s (a ∷ as_) = run (step a s) as_

start_fetch-IsSplit :
    (force : Bool) (s : ModelsState) → IsSplit s → IsSplit (get_or (start_fetch force s) s)
unfolding start_fetch
start_fetch-IsSplit force s h = elim (Bool-cases (not force && s.loading)) [
  | inl t ↦ rw t h
  | inr f ↦ elim (Bool-cases (not force && not s.has_fetched)) [
    | inl first ↦ rw f (rw first h)
    | inr again ↦ rw f (rw again h)
  ]
]

update-IsSplit :
    (by_model : Dict ℕ) (s : ModelsState) → IsSplit s → IsSplit (update_node_counts by_model s)
unfolding update_node_counts
update-IsSplit by_model s h =
    elim (Bool-cases (any (λ m. not (eqb m.node_count (new_count by_model m))) s.models)) [
      | inl t ↦ rw t (refl, refl)
      | inr f ↦ rw f h
    ]

step-IsSplit : (a : Action) (s : ModelsState) → IsSplit s → IsSplit (step a s)
unfolding step end_fetch
step-IsSplit (starts force) s h = start_fetch-IsSplit force s h
step-IsSplit (ends (ok models)) s h = (refl, refl)
step-IsSplit (ends (err message)) s h = h
step-IsSplit (counts by_model) s h = update-IsSplit by_model s h
step-IsSplit resets s h = (refl, refl)

-- After any history of actions, in which fetches may start and end in any order, the models for images
-- and for embeddings are exactly those of the list of all models, if they were at the start.
pub run-IsSplit : (s : ModelsState) (as_ : List Action) → IsSplit s → IsSplit (run s as_)
unfolding run
run-IsSplit s [] h = h
run-IsSplit s (a ∷ as_) h = run-IsSplit (step a s) as_ (step-IsSplit a s h)
