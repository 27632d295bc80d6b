-- ===== src/AuthStore/Tests.antt =====
-- The theorems of the session at one history: a user logs in, unlocks the vault and logs out.
use gpt.Prelude.{
  ℕ, String, ◌≡◌, refl, true, false, Option, none, some, List, [], ◌∷◌, ◌++◌, ok, err,
}
use gpt.AuthStore.State.{Session, initial_state, AuthStatus, vault_locked}
use gpt.AuthStore.Lifecycle.{InitAnswers, success, valid, init_auth, logout, retry_user_setup}
use gpt.AuthStore.Vault.{Whoami, has_canister, unlock_vault}
use gpt.AuthStore.Vault.{setup_vault as create_vault}
use gpt.AuthStore.Race.{IsStranded, setup_vault-unlock_vault-raced}
use gpt.AuthStore.Registration.{Round, resolve_user_session}
use gpt.AuthStore.Registration.Unlocking.{resolve_user_session-ends}
use gpt.AuthStore.Invariant.{Action, logs_in, resolves, unlocks, retry-init_auth}

abbrev booted : Session ℕ
booted = record { auth = initial_state; cached_key = none; stores = 7 }

abbrev reset : ℕ → ℕ
reset _ = 0

abbrev no_status : String → Option String
no_status _ = none

abbrev signed_in : InitAnswers
signed_in = record {
  client = ok 1;
  authenticated = ok true;
  validation = valid;
  principal = "aaaaa-aa";
}

abbrev offline : InitAnswers
offline = record {
  client = err "offline";
  authenticated = ok true;
  validation = valid;
  principal = "";
}

abbrev vault : Whoami
vault = record { enc_salt = some "salt"; enc_validator = some "validator" }

abbrev registers : Round
registers = record {
  assignment = ok none;
  finalized = ok false;
  whoami = err "no canister";
  is_valid = λ _. false;
  register = ok tt;
}

abbrev finds : Round
finds = record {
  assignment = ok (some "bbbbb-bb");
  finalized = ok true;
  whoami = ok vault;
  is_valid = λ _. true;
  register = ok tt;
}

-- It ends in the status "registered", with the key and the canister.
abbrev history : List Action
history =
    logs_in (some "id.example") signed_in (success "aaaaa-aa")
    ∷ resolves (registers ∷ finds ∷ [])
    ∷ unlocks (ok vault) (ok (some "key"))
    ∷ []

retry-init_auth_example :
    retry_user_setup reset signed_in (init_auth reset offline booted)
    ≡ init_auth reset offline booted
retry-init_auth_example =
    retry-init_auth reset no_status offline signed_in booted "offline" refl refl

abbrev pending : Session ℕ
pending = record {
  auth = record initial_state {
    auth_status = AuthStatus.pending_setup;
    auth_client = some 1;
    principal = some "aaaaa-aa";
  };
  cached_key = some "key";
  stores = 0;
}

resolve_user_session-ends_example :
    (v : Session ℕ) × (resolve_user_session reset no_status ((registers ∷ []) ++ finds ∷ []) pending
      ≡ some v)
resolve_user_session-ends_example =
    resolve_user_session-ends reset no_status (registers ∷ []) finds [] "bbbbb-bb" pending refl refl

abbrev locked : Session ℕ
locked = record {
  auth = record initial_state {
    auth_status = vault_locked;
    auth_client = some 1;
    principal = some "aaaaa-aa";
    user_canister_id = some "bbbbb-bb";
  };
  cached_key = none;
  stores = 5;
}

setup_vault-unlock_vault-raced_example :
    let meanwhile = λ (u : Session ℕ). logout reset u in
    IsStranded "key" (create_vault meanwhile (ok "key") locked)
    × IsStranded "key" (unlock_vault meanwhile (ok vault) (ok (some "key")) locked).0
unfolding has_canister
setup_vault-unlock_vault-raced_example =
    setup_vault-unlock_vault-raced reset (λ u. u) "key" vault locked refl refl refl
