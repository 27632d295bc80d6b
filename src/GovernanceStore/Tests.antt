-- ===== src/GovernanceStore/Tests.antt =====
-- The theorem of the store, at a new manager and a pool of two canisters.
use gpt.Prelude.{true, false, none, some, List, [], ◌∷◌, ok, err}
use gpt.GovernanceStore.{CanisterInfo, empty}
use gpt.GovernanceStore.Pool.{Action, IsQuiet, ask, claim, fetch_pool, provision, run, run-IsQuiet}

abbrev canister : CanisterInfo
canister = record {
  canister_id = "can";
  time_created = 1;
  state = "Available";
  storage_usage_bytes = none;
  storage_limit_bytes = 0;
  is_loading_storage = true;
  storage_load_error = none;
}

abbrev actions : List Action
actions =
    ask claim true (ok tt) (err "No answer")
    ∷ fetch_pool true
        (ok (record { available = canister ∷ []; assigned = canister ∷ []; target_size = 2 }))
        (ok (λ id. some none))
    ∷ provision false (ok tt) (err "") (err "")
    ∷ []

run-IsQuiet_example : IsQuiet (run actions empty)
run-IsQuiet_example = run-IsQuiet actions
