-- ===== src/AuthStore/Vault.antt =====
-- authStore/actions/vault.ts and usage.ts. The cryptography is a set of answers: the key that is
-- derived from the PIN, and the key that `verifyPin` gives for the right PIN. `meanwhile` is what other
-- actions do to the session until the last of the awaited answers is there: the guards are read before
-- it, and what is written is written after it.
use gpt.Prelude.{
  given, ℕ, String, Bool, not, ◌&&◌, ◌||◌, Option, none, some, if◌then◌else◌, is_some, Result, ok,
  err, includes,
}
use gpt.AuthStore.State.{registered, AuthState, Session, set_auth, is_registered}
use gpt.AuthStore.Lifecycle.{handle_invalid_delegation_error}

-- What `whoami` tells of the vault.
pub record Whoami : Type 0 where
  pub enc_salt : Option String
  pub enc_validator : Option String

-- `!authClient || !userCanisterId`
unfoldable pub has_canister : AuthState → Bool
has_canister s = is_some s.auth_client && is_some (given s.user_canister_id)

unfoldable pub open_vault : {S : Type 0} → String → Session S → Session S
open_vault key w = record w {
  auth = record (w.auth) { root_key = some key; auth_status = registered };
  cached_key = some key;
}

-- `outcome` is the root key once the registration is finalized, or the error of a step before.
unfoldable pub setup_vault :
    {S : Type 0} → (Session S → Session S) → Result String → Session S → Session S
unfolding open_vault has_canister
setup_vault meanwhile outcome w =
    if has_canister w.auth
    then elim outcome [
      | ok key ↦ open_vault key (meanwhile w)
      | err message ↦ set_auth (λ s. record s { setup_error = some message }) (meanwhile w)
    ]
    else w

unfoldable pub verified :
    {S : Type 0} → Result (Option String) → Session S → Session S × Result (Unit {0})
verified (err message) w = (w, err message)
verified (ok key) w = elim (given key) [
  | none ↦ (w, err "Incorrect PIN")
  | some k ↦ (open_vault k w, ok tt)
]

with_whoami :
    {S : Type 0}
    → Result (Option String)
    → Result Whoami
    → Session S
    → Session S × Result (Unit {0})
with_whoami pin (err message) w = (w, err message)
with_whoami pin (ok who) w =
    if is_some (given who.enc_salt) && is_some (given who.enc_validator)
    then verified pin w
    else (w, err "Vault corrupted: missing salt or validator.")

-- The result is what the caller of the action sees: the error is thrown on.
unfoldable pub unlock_vault :
    {S : Type 0}
    → (Session S → Session S)
    → Result Whoami
    → Result (Option String)
    → Session S
    → Session S × Result (Unit {0})
unfolding with_whoami verified open_vault has_canister
unlock_vault meanwhile who pin w =
    if has_canister w.auth then with_whoami pin who (meanwhile w) else (w, ok tt)

unfoldable pub clear_vault : {S : Type 0} → Session S → Session S
clear_vault w = record w { auth = record (w.auth) { root_key = none }; cached_key = none }

unfoldable pub set_user_storage_usage : {S : Type 0} → ℕ → ℕ → Session S → Session S
set_user_storage_usage bytes limit =
    set_auth (λ s. record s { user_storage_usage = bytes; user_storage_limit = limit })

pub is_delegation_error : String → Bool
is_delegation_error text =
    includes text "delegation is invalid" || includes text "verification failed"

unfoldable pub fetch_user_usage : {S : Type 0} → (S → S) → Result (ℕ × ℕ) → Session S → Session S
unfolding has_canister set_user_storage_usage
fetch_user_usage reset_stores answer w =
    if w.auth.is_session_expired || not (is_registered w.auth.auth_status && has_canister w.auth)
    then w
    else elim answer [
      | ok (usage, limit) ↦ set_user_storage_usage usage limit w
      | err text ↦
          if is_delegation_error text then handle_invalid_delegation_error reset_stores w else w
    ]
