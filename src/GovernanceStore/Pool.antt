-- ===== src/GovernanceStore/Pool.antt =====
-- What every sequence of actions keeps: no spinner is left on, and the list of all canisters is that of
-- the available and the assigned ones.
use gpt.Prelude.{
  String, ◌≡◌, refl, inl, inr, Bool, true, false, not, ◌&&◌, ◌||◌, none, List, [], ◌∷◌, ◌++◌, eqb,
  Bool-cases, Result, ok, err, length,
}
use gpt.GovernanceStore.{
  Call, CanisterPool, GovernanceState, Storage, add_manager, add_measurement, add_model, begin,
  claim_manager_role, empty, fetch_canisters, fetch_initial_data, manage, provision_canister,
  remove_manager, remove_measurement, reset, show_pool, show_storage, update_attestation_policies,
  update_measurement_status, update_model,
}

abbrev pub IsPooled : GovernanceState → Type 0
IsPooled s =
    (s.canisters ≡ s.available_canisters ++ s.assigned_canisters) × (s.loading_canisters ≡ false)

abbrev pub IsQuiet : GovernanceState → Type 0
IsQuiet s = (s.loading ≡ false) × IsPooled s

-- An action with its answers, no other action between its calls.
abbrev pub alone : {A : Type 0} → Result A → Call A
alone r = record { answer = r; meanwhile = λ s. s }

-- What a manager asks for; a fetch follows the call.
pub data Request : Type 0 where
  claim add_principal remove_principal update_policies add_hex update_hex remove_hex : Request
  add_preset update_preset : Request

pub data Action : Type 0 where
  fetch : (force has_client : Bool) → Result (Bool × List String × String) → Action
  ask :
      (request : Request) (has_client : Bool)
      → Result (Unit {0})
      → Result (Bool × List String × String)
      → Action
  fetch_pool : (has_client : Bool) → Result CanisterPool → Result (String → Storage) → Action
  provision :
      (has_client : Bool)
      → Result (Unit {0})
      → Result CanisterPool
      → Result (String → Storage)
      → Action
  forget : Action

abbrev pub ask_for :
    Request
    → Bool
    → Call (Unit {0})
    → Call (Bool × List String × String)
    → GovernanceState
    → GovernanceState × Result (Unit {0})
ask_for claim = claim_manager_role
ask_for add_principal = add_manager
ask_for remove_principal = remove_manager
ask_for update_policies = update_attestation_policies
ask_for add_hex = add_measurement
ask_for update_hex = update_measurement_status
ask_for remove_hex = remove_measurement
ask_for add_preset = add_model
ask_for update_preset = update_model

abbrev pub perform : Action → GovernanceState → GovernanceState
perform (fetch force has_client data_) s = fetch_initial_data force has_client (alone data_) s
perform (ask request has_client done data_) s =
    (ask_for request has_client (alone done) (alone data_) s).0
perform (fetch_pool has_client pool storage) s =
    fetch_canisters has_client (alone pool) (alone storage) s
perform (provision has_client done pool storage) s =
    (provision_canister has_client (alone done) (alone pool) (alone storage) s).0
perform forget s = reset s

abbrev pub run : List Action → GovernanceState → GovernanceState
run [] s = s
run (a ∷ as_) s = run as_ (perform a s)

fetch_initial_data-IsPooled :
    (force has_client : Bool) (r : Result (Bool × List String × String)) (s : GovernanceState)
    → IsPooled s
    → IsPooled (fetch_initial_data force has_client (alone r) s)
unfolding fetch_initial_data
fetch_initial_data-IsPooled force has_client r s h =
    elim (Bool-cases (not force && (s.loading || s.has_fetched_initial_data))) [
      | inl t ↦ rw (fetch_initial_data, t) h
      | inr f ↦ rw (fetch_initial_data, f) (fetched has_client r)
    ]
  where
    fetched :
        (c : Bool) (q : Result (Bool × List String × String))
        → IsPooled (fetch_initial_data true c (alone q) s)
    fetched true (ok _) = h
    fetched true (err _) = h
    fetched false q = h

fetch_initial_data-IsQuiet :
    (force has_client : Bool) (r : Result (Bool × List String × String)) (s : GovernanceState)
    → IsQuiet s
    → IsQuiet (fetch_initial_data force has_client (alone r) s)
unfolding fetch_initial_data
fetch_initial_data-IsQuiet force has_client r s (idle, h) = (
  elim (Bool-cases (not force && (s.loading || s.has_fetched_initial_data))) [
    | inl t ↦ rw (fetch_initial_data, t) idle
    | inr f ↦ rw (fetch_initial_data, f) (over has_client r)
  ],
  fetch_initial_data-IsPooled force has_client r s h,
)
  where
    over :
        (c : Bool) (q : Result (Bool × List String × String))
        → (fetch_initial_data true c (alone q) s).loading ≡ false
    over true (ok _) = refl
    over true (err _) = refl
    over false q = refl

manage-IsQuiet :
    (fallback : String) (refresh : GovernanceState → GovernanceState) (has_client : Bool)
    (r : Result (Unit {0})) (s : GovernanceState)
    → ((u : GovernanceState) → IsPooled u → IsPooled (refresh u))
    → IsPooled s
    → IsQuiet (manage fallback refresh has_client (alone r) s).0
unfolding manage
manage-IsQuiet fallback refresh true (ok _) s keeps h = (refl, keeps (begin s) h)
manage-IsQuiet fallback refresh true (err _) s keeps h = (refl, h)
manage-IsQuiet fallback refresh false r s keeps h = (refl, h)

ask_for-IsQuiet :
    (request : Request) (has_client : Bool) (r : Result (Unit {0}))
    (q : Result (Bool × List String × String)) (s : GovernanceState)
    → IsPooled s
    → IsQuiet (ask_for request has_client (alone r) (alone q) s).0
unfolding claim_manager_role add_manager remove_manager update_attestation_policies add_measurement
    update_measurement_status remove_measurement add_model update_model
ask_for-IsQuiet claim c r q s h = manage-IsQuiet _ _ c r s (fetch_initial_data-IsPooled true c q) h
ask_for-IsQuiet add_principal c r q s h =
    manage-IsQuiet _ _ c r s (fetch_initial_data-IsPooled true c q) h
ask_for-IsQuiet remove_principal c r q s h =
    manage-IsQuiet _ _ c r s (fetch_initial_data-IsPooled true c q) h
ask_for-IsQuiet update_policies c r q s h =
    manage-IsQuiet _ _ c r s (fetch_initial_data-IsPooled true c q) h
ask_for-IsQuiet add_hex c r q s h =
    manage-IsQuiet _ _ c r s (fetch_initial_data-IsPooled true c q) h
ask_for-IsQuiet update_hex c r q s h =
    manage-IsQuiet _ _ c r s (fetch_initial_data-IsPooled true c q) h
ask_for-IsQuiet remove_hex c r q s h =
    manage-IsQuiet _ _ c r s (fetch_initial_data-IsPooled true c q) h
ask_for-IsQuiet add_preset c r q s h = manage-IsQuiet _ _ c r s (λ u k. k) h
ask_for-IsQuiet update_preset c r q s h = manage-IsQuiet _ _ c r s (λ u k. k) h

fetch_canisters-IsQuiet :
    (has_client : Bool) (pool : Result CanisterPool) (storage : Result (String → Storage))
    (s : GovernanceState)
    → s.loading ≡ false
    → s.canisters ≡ s.available_canisters ++ s.assigned_canisters
    → IsQuiet (fetch_canisters has_client (alone pool) (alone storage) s)
unfolding fetch_canisters show_pool show_storage
fetch_canisters-IsQuiet false pool storage s idle h = (idle, (h, refl))
fetch_canisters-IsQuiet true (err _) storage s idle h = (idle, (h, refl))
fetch_canisters-IsQuiet true (ok p) (err _) s idle h =
    elim (Bool-cases (eqb (length p.assigned) 0)) [
      | inl t ↦ rw t (idle, (refl, refl))
      | inr f ↦ rw f (idle, (refl, refl))
    ]
fetch_canisters-IsQuiet true (ok p) (ok m) s idle h =
    elim (Bool-cases (eqb (length p.assigned) 0)) [
      | inl t ↦ rw t (idle, (refl, refl))
      | inr f ↦ rw f (idle, (refl, refl))
    ]

provision-IsQuiet :
    (has_client : Bool) (done : Result (Unit {0})) (pool : Result CanisterPool)
    (storage : Result (String → Storage)) (s : GovernanceState)
    → IsQuiet s
    → IsQuiet (provision_canister has_client (alone done) (alone pool) (alone storage) s).0
unfolding provision_canister
provision-IsQuiet false done pool storage s (idle, (h, q)) = (idle, (h, refl))
provision-IsQuiet true (err _) pool storage s (idle, (h, q)) = (idle, (h, refl))
provision-IsQuiet true (ok _) pool storage s (idle, (h, q)) =
    let begun = record s { loading_canisters = true; error = none } in
    let (i, (p, _)) = fetch_canisters-IsQuiet true pool storage begun idle h in (i, (p, refl))

perform-IsQuiet : (a : Action) (s : GovernanceState) → IsQuiet s → IsQuiet (perform a s)
perform-IsQuiet (fetch force c r) s h = fetch_initial_data-IsQuiet force c r s h
perform-IsQuiet (ask request c r q) s (idle, h) = ask_for-IsQuiet request c r q s h
perform-IsQuiet (fetch_pool c pool storage) s (idle, (h, q)) =
    fetch_canisters-IsQuiet c pool storage s idle h
perform-IsQuiet (provision c r pool storage) s h = provision-IsQuiet c r pool storage s h
perform-IsQuiet forget s h = (refl, (refl, refl))

run-from : (as_ : List Action) (s : GovernanceState) → IsQuiet s → IsQuiet (run as_ s)
run-from [] s h = h
run-from (a ∷ as_) s h = run-from as_ (perform a s) (perform-IsQuiet a s h)

-- After any actions of the store, one after the other and whatever the calls answer, neither of the two
-- marks of loading is set, and the list of all canisters is that of the available ones followed by the
-- assigned ones.
pub run-IsQuiet : (as_ : List Action) → IsQuiet (run as_ empty)
run-IsQuiet as_ = run-from as_ empty (refl, (refl, refl))
