-- ===== src/AuthStore/Registration.antt =====
-- authStore/actions/registration.ts. Each round of `checkAndResolve` asks for the canister of the
-- user, and registers the user if there is none; the rounds' answers are a list, and `none` means
-- that the list ended before the action did.
pub mod Unlocking
use gpt.Prelude.{
  given, String, Bool, true, false, ◌&&◌, ◌||◌, Option, none, some, List, [], ◌∷◌, if◌then◌else◌,
  is_some, Result, ok, err, includes,
}
use gpt.ResultUtils.Setup.{classify_setup_error}
use gpt.AuthStore.State.{setup_vault, vault_locked, AuthStatus, Session, set_auth, is_pending_setup}
use gpt.AuthStore.Lifecycle.{
  set_auth_error, confirm_user_canister_id, handle_invalid_delegation_error,
}
use gpt.AuthStore.Vault.{Whoami}

-- The answers of one round. `is_valid` is `verifyKey` of the cached key.
pub record Round : Type 0 where
  pub assignment : Result (Option String)
  pub finalized : Result Bool
  pub whoami : Result Whoami
  pub is_valid : String → Bool
  pub register : Result (Unit {0})

-- How a round ends: with the new session, with an error, or with another round.
data Ending (S : Type 0) : Type 0 where
  resolved : Session S → Ending S
  failed : String → Ending S
  again : Ending S

go_to : {S : Type 0} → AuthStatus → String → Session S → Session S
go_to status canister_id =
    set_auth (λ s. record s { auth_status = status; user_canister_id = some canister_id })

-- The vault exists: the cached key opens it, is wiped, or is missing.
check_cache : {S : Type 0} → Round → String → Session S → Session S
unfolding go_to confirm_user_canister_id
check_cache r canister_id w = elim (given w.cached_key) [
  | none ↦ go_to vault_locked canister_id w
  | some key ↦
      if r.is_valid key
      then confirm_user_canister_id canister_id (set_auth (λ s. record s { root_key = some key }) w)
      else go_to vault_locked canister_id (record w { cached_key = none })
]

check_vault : {S : Type 0} → Round → String → Session S → Ending S
unfolding check_cache go_to
check_vault r canister_id w = elim r.whoami [
  | err message ↦ failed message
  | ok who ↦ resolved (
      if is_some (given who.enc_salt) && is_some (given who.enc_validator)
      then check_cache r canister_id w
      else go_to setup_vault canister_id w)
]

check_assigned : {S : Type 0} → Round → String → Session S → Ending S
unfolding check_vault go_to
check_assigned r canister_id w = elim r.finalized [
  | err message ↦ failed message
  | ok true ↦ check_vault r canister_id w
  | ok false ↦ resolved (go_to setup_vault canister_id w)
]

register_user : {S : Type 0} → Round → Ending S
register_user r = elim r.register [ err message ↦ failed message | ok _ ↦ again ]

assigned : {S : Type 0} → Round → Option String → Session S → Ending S
assigned r none w = register_user r
assigned r (some canister_id) w = check_assigned r canister_id w

on_assignment : {S : Type 0} → Round → Result (Option String) → Session S → Ending S
on_assignment r (err message) w = failed message
on_assignment r (ok found) w = assigned r (given found) w

round : {S : Type 0} → Round → Session S → Ending S
unfolding on_assignment
round r w = on_assignment r r.assignment w

is_delegation_error : String → Bool
is_delegation_error text =
    includes text "delegation is invalid" || includes text "cryptographic verification failed"

-- The `catch` of the action; an error of the agent carries its status.
on_error : {S : Type 0} → (S → S) → (String → Option String) → String → Session S → Session S
unfolding is_delegation_error
on_error reset_stores status message w =
    let d = classify_setup_error (record { text = message; status = status message }) in
    if is_delegation_error message
    then handle_invalid_delegation_error reset_stores w
    else set_auth_error (some d.message) d.title d.is_fatal w

end_of :
    {S : Type 0}
    → (S → S)
    → (String → Option String)
    → Ending S
    → Session S
    → Option (Session S)
    → Option (Session S)
end_of reset_stores status (resolved v) w more = some v
end_of reset_stores status (failed message) w more = some (on_error reset_stores status message w)
end_of reset_stores status again w more = more

rounds :
    {S : Type 0} → (S → S) → (String → Option String) → List Round → Session S → Option (Session S)
rounds reset_stores status [] w = none
rounds reset_stores status (r ∷ rs) w =
    end_of reset_stores status (round r w) w (rounds reset_stores status rs w)

pub resolve_user_session :
    {S : Type 0} → (S → S) → (String → Option String) → List Round → Session S → Option (Session S)
unfolding rounds
resolve_user_session reset_stores status rs w =
    if is_some w.auth.auth_client
      && is_some (given w.auth.principal)
      && is_pending_setup w.auth.auth_status
    then rounds reset_stores status rs w
    else some w
