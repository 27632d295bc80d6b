-- ===== src/ModelsStore/Choice.antt =====
-- Which model is chosen.
use gpt.Prelude.{
  ℕ, ◌≤◌, ◌≡◌, refl, sym, inl, inr, Bool, true, some, List, [], ◌∷◌, arith, ◌==◌, Bool-cases,
  Option-cases, is_some, In, here, there, find?, any, get_elem?, In-cons, get_elem?-In, sort_by,
  AtLeast, IsSorted, sort_by-IsSorted, In-sort, sort-In,
}
use gpt.Types.{Model}
use gpt.ModelsStore.{
  ModelsState, price, is_available, default_embedding_model_id, get_cheapest_image_model,
  get_embedding_model, is_embedding_model_available,
}

AtLeast-In : (n : ℕ) (ms : List Model) {m : Model} → AtLeast price n ms → In m ms → n ≤ price m
AtLeast-In n [] least i = elim i [ ]
AtLeast-In n (x ∷ ms) least (here) = least.0
AtLeast-In n (x ∷ ms) least (there i) = AtLeast-In n ms least.1 i

first-least :
    (ms : List Model) (m : Model) {other : Model}
    → IsSorted price ms
    → get_elem? ms 0 ≡ some m
    → In other ms
    → price m ≤ price other
first-least [] m sorted e i = elim i [ ]
first-least (x ∷ ms) m sorted e i =
    let same : x ≡ m = cc in
    elim (In-cons i) [
      | inl q ↦ rw (sym same, q) (omega arith)
      | inr j ↦ rw (sym same) (AtLeast-In (price x) ms sorted.0 j)
    ]

-- The image model that is chosen is one of the image models, and none of them is cheaper.
pub get_cheapest_image_model-least :
    (s : ModelsState) (m other : Model)
    → get_cheapest_image_model s ≡ some m
    → In other s.image_models
    → In m s.image_models × (price m ≤ price other)
unfolding get_cheapest_image_model
get_cheapest_image_model-least s m other e i = (
  sort-In price s.image_models (get_elem?-In (sort_by price s.image_models) 0 e),
  first-least (sort_by price s.image_models) m (sort_by-IsSorted price s.image_models) e
      (In-sort price s.image_models i),
)

find-any : {A : Type 0} (p : A → Bool) (xs : List A) → is_some (find? p xs) ≡ any p xs
find-any p [] = refl
find-any p (x ∷ xs) = ground (arith, find-any p xs)

any-find :
    {A : Type 0} (p q : A → Bool) (xs : List A) (x : A)
    → find? q xs ≡ some x
    → p x ≡ true
    → any p xs ≡ true
any-find p q [] x e h = cc
any-find p q (y ∷ ys) x e h = elim (Bool-cases (q y)) [
  | inl t ↦
      let same : y ≡ x = cc (let r : some y ≡ some x = rw t at e in r) in
      let yes : p y ≡ true = rw same h in rw yes refl
  | inr f ↦
      let e' : find? q ys ≡ some x = rw f at e in
      let later = any-find p q ys x e' h in rw later (ground arith)
]

-- An embedding model is found exactly if some embedding model is active and has a node; the default
-- model is only preferred.
pub is_embedding_model_available-any :
    (s : ModelsState) → is_embedding_model_available s ≡ any is_available s.embedding_models
unfolding is_embedding_model_available get_embedding_model
is_embedding_model_available-any s =
    let by_default =
      find? (λ (m : Model). m.model_id == default_embedding_model_id) s.embedding_models in
    elim (Option-cases by_default) [
      | inl e ↦ rw (e, get_embedding_model) (find-any is_available s.embedding_models)
      | inr (m, e) ↦ elim (Bool-cases (is_available m)) [
        | inl t ↦
            rw (e, get_embedding_model)
              (rw t (
                sym (
                  any-find is_available (λ (x : Model). x.model_id == default_embedding_model_id)
                    s.embedding_models m e t)))
        | inr f ↦ rw (e, get_embedding_model) (rw f (find-any is_available s.embedding_models))
      ]
    ]
