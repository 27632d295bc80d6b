-- ===== src/GovernanceStore.antt =====
-- gpt_frontend/src/store/governanceStore.ts: the managers, the attestation and the pool of canisters.
-- A call of the index canister is its answer with what other actions do meanwhile. A principal and the
-- attestation requirements are only passed on, as texts.
pub mod Pool
mod Tests
use gpt.Prelude.{
  ℕ, ◌+◌, String, Bool, true, false, not, ◌&&◌, ◌||◌, Option, none, some, List, [], ◌++◌, map, eqb,
  if◌then◌else◌, Result, ok, err, length, remove, is_empty,
}

pub record CanisterInfo : Type 0 where
  pub canister_id : String
  pub time_created : ℕ
  pub state : String
  pub storage_usage_bytes : Option ℕ
  pub storage_limit_bytes : ℕ
  pub is_loading_storage : Bool
  pub storage_load_error : Option String

pub record GovernanceState : Type 0 where
  pub loading : Bool
  pub error : Option String
  pub is_manager : Option Bool
  pub managers : List String
  pub has_fetched_initial_data : Bool
  pub attestation_requirements : Option String
  pub available_canisters : List CanisterInfo
  pub assigned_canisters : List CanisterInfo
  pub pool_target_size : ℕ
  pub canisters : List CanisterInfo
  pub loading_canisters : Bool
  pub has_fetched_canisters : Bool

abbrev pub empty : GovernanceState
empty = record {
  loading = false;
  error = none;
  is_manager = none;
  managers = [];
  has_fetched_initial_data = false;
  attestation_requirements = none;
  available_canisters = [];
  assigned_canisters = [];
  pool_target_size = 0;
  canisters = [];
  loading_canisters = false;
  has_fetched_canisters = false;
}

abbrev pub reset : GovernanceState → GovernanceState
reset s = empty

pub record Call (A : Type 0) : Type 0 where
  pub answer : Result A
  pub meanwhile : GovernanceState → GovernanceState

abbrev pub no_client : String
no_client = "Authentication client not ready."

-- `errorMsg || "…"`
abbrev pub shown : String → String → Option String
shown message fallback = some (if is_empty message then fallback else message)

abbrev pub begin : GovernanceState → GovernanceState
begin s = record s { loading = true; error = none }

-- The answer is that of the three calls together, of which the first error ends the fetch.
unfoldable pub fetch_initial_data :
    Bool → Bool → Call (Bool × List String × String) → GovernanceState → GovernanceState
fetch_initial_data force has_client data_ s =
    if not force && (s.loading || s.has_fetched_initial_data)
    then s
    else (let begun = begin s in
        if has_client
        then elim data_.answer [
          | ok (m, ms, r) ↦ record (data_.meanwhile begun) {
            is_manager = some m;
            managers = ms;
            attestation_requirements = some r;
            has_fetched_initial_data = true;
            loading = false;
          }
          | err e ↦ record (data_.meanwhile begun) {
            error = shown e "Failed to fetch governance data.";
            loading = false;
          }
        ]
        else record begun { error = some no_client; loading = false })

-- The frame of the actions of a manager: `refresh` is the fetch that follows the call.
unfoldable pub manage :
    String
    → (GovernanceState → GovernanceState)
    → Bool
    → Call (Unit {0})
    → GovernanceState
    → GovernanceState × Result (Unit {0})
manage fallback refresh has_client done s =
    let begun = begin s in
    if has_client
    then elim done.answer [
      | ok _ ↦ (record (refresh (done.meanwhile begun)) { loading = false }, ok tt)
      | err e ↦ (record (done.meanwhile begun) { error = shown e fallback; loading = false }, err e)
    ]
    else (record begun { error = some no_client; loading = false }, err no_client)

module _ (has_client : Bool) (done : Call (Unit {0}))
    (data_ : Call (Bool × List String × String)) where
  abbrev refetch : GovernanceState → GovernanceState
  refetch s = fetch_initial_data true has_client data_ s

  unfoldable pub claim_manager_role : GovernanceState → GovernanceState × Result (Unit {0})
  claim_manager_role = manage "Failed to claim manager role." refetch has_client done

  unfoldable pub add_manager : GovernanceState → GovernanceState × Result (Unit {0})
  add_manager = manage "Failed to add manager." refetch has_client done

  unfoldable pub remove_manager : GovernanceState → GovernanceState × Result (Unit {0})
  remove_manager = manage "Failed to remove manager." refetch has_client done

  unfoldable pub update_attestation_policies : GovernanceState → GovernanceState × Result (Unit {0})
  update_attestation_policies =
      manage "Failed to update attestation policies." refetch has_client done

  unfoldable pub add_measurement : GovernanceState → GovernanceState × Result (Unit {0})
  add_measurement = manage "Failed to add measurement." refetch has_client done

  unfoldable pub update_measurement_status : GovernanceState → GovernanceState × Result (Unit {0})
  update_measurement_status = manage "Failed to update measurement status." refetch has_client done

  unfoldable pub remove_measurement : GovernanceState → GovernanceState × Result (Unit {0})
  remove_measurement = manage "Failed to remove measurement." refetch has_client done

  -- The models are fetched again, in their own store; that fetch does not throw.
  unfoldable pub add_model : GovernanceState → GovernanceState × Result (Unit {0})
  add_model = manage "Failed to add model." (λ s. s) has_client done

  unfoldable pub update_model : GovernanceState → GovernanceState × Result (Unit {0})
  update_model = manage "Failed to update model." (λ s. s) has_client done

pub record CanisterPool : Type 0 where
  pub available : List CanisterInfo
  pub assigned : List CanisterInfo
  pub target_size : ℕ

-- `storageMap.get(…)`: `none` if the key is missing, `some none` if the value is `null`. The share that
-- is used is the quotient of the two numbers, and is not kept apart.
abbrev pub Storage : Type 0
Storage = Option (Option (ℕ × ℕ))

unfoldable pub with_storage : Storage → CanisterInfo → CanisterInfo
with_storage (some (some (used, limit))) c = record c {
  storage_usage_bytes = some used;
  storage_limit_bytes = limit;
  is_loading_storage = false;
  storage_load_error = none;
}
with_storage (some none) c = record c {
  storage_usage_bytes = none;
  storage_limit_bytes = 7516192768;
  is_loading_storage = false;
  storage_load_error = some "Failed to load storage";
}
with_storage none c = record c {
  storage_usage_bytes = none;
  storage_limit_bytes = 7516192768;
  is_loading_storage = false;
  storage_load_error = none;
}

-- The first `set` of the fetch.
unfoldable pub show_pool : CanisterPool → GovernanceState → GovernanceState
show_pool p s = record s {
  available_canisters = p.available;
  assigned_canisters = p.assigned;
  pool_target_size = p.target_size;
  canisters = p.available ++ p.assigned;
  has_fetched_canisters = true;
}

-- The second `set`, which takes the available canisters from the answer and not from the store.
unfoldable pub show_storage : CanisterPool → (String → Storage) → GovernanceState → GovernanceState
show_storage p storage s =
    let assigned = map (λ c. with_storage (storage c.canister_id) c) p.assigned in
    record s { assigned_canisters = assigned; canisters = p.available ++ assigned }

unfoldable pub fetch_canisters :
    Bool → Call CanisterPool → Call (String → Storage) → GovernanceState → GovernanceState
unfolding show_pool show_storage
fetch_canisters has_client pool storage s =
    let begun = record s { loading_canisters = true } in
    record (if has_client
      then elim pool.answer [
        | err _ ↦ pool.meanwhile begun
        | ok p ↦
            let shown_ = show_pool p (pool.meanwhile begun) in
            if eqb (length p.assigned) 0 then shown_ else elim storage.answer [
              | err _ ↦ storage.meanwhile shown_
              | ok m ↦ show_storage p m (storage.meanwhile shown_)
            ]
      ]
      else begun) { loading_canisters = false }

unfoldable pub provision_canister :
    Bool
    → Call (Unit {0})
    → Call CanisterPool
    → Call (String → Storage)
    → GovernanceState
    → GovernanceState × Result (Unit {0})
provision_canister has_client done pool storage s =
    let begun = record s { loading_canisters = true; error = none } in
    if has_client
    then elim done.answer [
      | err e ↦ (
        record (done.meanwhile begun) {
          error = shown e "Failed to provision canister.";
          loading_canisters = false;
        },
        err e,
      )
      | ok _ ↦ (
        record (fetch_canisters has_client pool storage (done.meanwhile begun)) {
          loading_canisters = false;
        },
        ok tt,
      )
    ]
    else (record begun { error = some no_client; loading_canisters = false }, err no_client)
