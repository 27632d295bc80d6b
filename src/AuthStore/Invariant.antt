-- ===== src/AuthStore/Invariant.antt =====
-- The sessions that the actions of the store can reach.
use gpt.Prelude.{
  ℕ, String, ◌≡◌, refl, Bool, true, false, Option, none, List, [], ◌∷◌, ◌++◌, get_or, Result, err,
}
use gpt.AuthStore.State.{Session, unauthenticated}
use gpt.AuthStore.Lifecycle.{
  InitAnswers, LoginAnswer, logout, handle_invalid_delegation_error, init_auth, login,
  retry_user_setup,
}
use gpt.AuthStore.Vault.{Whoami, unlock_vault, clear_vault, fetch_user_usage}
use gpt.AuthStore.Vault.{setup_vault as create_vault}
use gpt.AuthStore.Registration.{Round, resolve_user_session}

-- The actions of the store, with what they are answered.
pub data Action : Type 0 where
  inits : InitAnswers → Action
  logs_in : Option String → InitAnswers → LoginAnswer → Action
  logs_out invalidates clears : Action
  retries : InitAnswers → Action
  resolves : List Round → Action
  sets_up : Result String → Action
  unlocks : Result Whoami → Result (Option String) → Action
  fetches_usage : Result (ℕ × ℕ) → Action

abbrev pub is_clearing : Action → Bool
is_clearing clears = true
is_clearing _ = false

module _ {S : Type 0} (reset_stores : S → S) (status : String → Option String) where
  -- Each action runs to its end: nothing runs while it waits. A resolution whose answers run out is
  -- still under way, and has written nothing.
  pub step : Action → Session S → Session S
  step (inits a) w = init_auth reset_stores a w
  step (logs_in url a answer) w = login reset_stores url a answer w
  step logs_out w = logout reset_stores w
  step invalidates w = handle_invalid_delegation_error reset_stores w
  step (retries a) w = retry_user_setup reset_stores a w
  step (resolves rs) w = get_or (resolve_user_session reset_stores status rs w) w
  step (sets_up outcome) w = create_vault (λ u. u) outcome w
  step (unlocks who pin) w = (unlock_vault (λ u. u) who pin w).0
  step clears w = clear_vault w
  step (fetches_usage answer) w = fetch_user_usage reset_stores answer w

  pub run : Session S → List Action → Session S
  run w [] = w
  run w (a ∷ as_) = run (step a w) as_

  -- Logging out leaves no key, neither in memory nor in the session storage, and no trace of the user.
  pub run-logs_out :
      (w : Session S) (as_ : List Action)
      → let v = run w (as_ ++ logs_out ∷ []) in
        (v.cached_key ≡ none)
        × (v.auth.root_key ≡ none)
        × (v.auth.principal ≡ none)
        × (v.auth.user_canister_id ≡ none)
        × (v.auth.auth_status ≡ unauthenticated)
        × ((u : S) × (v.stores ≡ reset_stores u))
  unfolding run step logout
  run-logs_out w [] = (refl, refl, refl, refl, refl, (w.stores, refl))
  run-logs_out w (a ∷ as_) = run-logs_out (step a w) as_

  -- When the client could not be created and nobody is signed in, a retry changes nothing: the
  -- message that `initAuth` leaves is not the one that the retry looks for.
  pub retry-init_auth :
      (a b : InitAnswers) (w : Session S) (message : String)
      → a.client ≡ err message
      → w.auth.principal ≡ none
      → retry_user_setup reset_stores b (init_auth reset_stores a w) ≡ init_auth reset_stores a w
  unfolding retry_user_setup init_auth
  retry-init_auth a b w message e signed_out = rw (e, init_auth) (rw signed_out refl)
