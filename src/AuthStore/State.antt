-- ===== src/AuthStore/State.antt =====
-- authStore/state.ts, with the key that the browser's session storage keeps and the other stores.
use gpt.Prelude.{
  ℕ, ◌*◌, String, ◌≡◌, Bool, true, false, not, ◌&&◌, ◌||◌, Option, none, some, is_some,
}

pub data AuthStatus : Type 0 where
  initializing unauthenticated authenticating_ii pending_setup : AuthStatus
  registered setup_error vault_locked setup_vault : AuthStatus

abbrev pub critical_init_error_msg : String
critical_init_error_msg = "Critical: AuthClient initialization failed. Cannot proceed."

-- The client of the identity provider is a reference.
pub record AuthState : Type 0 where
  pub auth_status : AuthStatus
  pub principal : Option String
  pub auth_client : Option ℕ
  pub user_canister_id : Option String
  pub user_storage_usage : ℕ
  pub user_storage_limit : ℕ
  pub setup_error : Option String
  pub setup_error_title : Option String
  pub is_fatal_error : Option Bool
  pub is_session_expired : Bool
  pub root_key : Option String

-- 7 GiB
abbrev pub default_storage_limit : ℕ
default_storage_limit = 7 * 1024 * 1024 * 1024

abbrev pub initial_state : AuthState
initial_state = record {
  auth_status = AuthStatus.initializing;
  principal = none;
  auth_client = none;
  user_canister_id = none;
  user_storage_usage = 0;
  user_storage_limit = default_storage_limit;
  setup_error = none;
  setup_error_title = none;
  is_fatal_error = some false;
  is_session_expired = false;
  root_key = none;
}

-- `cached_key` is `gpt_root_key` of the session storage; `stores` is whatever the other stores hold.
pub record Session (S : Type 0) : Type 0 where
  pub auth : AuthState
  pub cached_key : Option String
  pub stores : S

abbrev pub set_auth : {S : Type 0} → (AuthState → AuthState) → Session S → Session S
set_auth f w = record w { auth = f w.auth }

abbrev pub is_registered : AuthStatus → Bool
is_registered AuthStatus.registered = true
is_registered _ = false

abbrev pub is_setup_error : AuthStatus → Bool
is_setup_error AuthStatus.setup_error = true
is_setup_error _ = false

abbrev pub is_initializing : AuthStatus → Bool
is_initializing AuthStatus.initializing = true
is_initializing _ = false

abbrev pub is_pending_setup : AuthStatus → Bool
is_pending_setup AuthStatus.pending_setup = true
is_pending_setup _ = false

-- A registered session holds the key of its vault and knows its canister.
abbrev pub IsUnlocked : AuthState → Type 0
IsUnlocked s =
    (not (is_registered s.auth_status) || (is_some s.root_key && is_some s.user_canister_id)) ≡ true
