-- ===== src/AuthStore/Lifecycle.antt =====
-- authStore/actions/setters.ts and lifecycle.ts. What the identity provider and the canisters answer
-- is an argument; nothing else runs between the calls of one action.
use gpt.Prelude.{
  given, ℕ, String, Bool, true, false, not, ◌&&◌, ◌||◌, Option, none, some, if◌then◌else◌, is_some,
  is_text, Result, ok, err, is_empty,
}
use gpt.AuthStore.State.{
  initializing, unauthenticated, authenticating_ii, pending_setup, registered, setup_error, Session,
  set_auth, is_setup_error, is_initializing, critical_init_error_msg, default_storage_limit,
}

pub set_principal : {S : Type 0} → String → Session S → Session S
set_principal p = set_auth (λ s. record s { principal = some p })

unfoldable pub set_auth_error : {S : Type 0} → Option String → String → Bool → Session S → Session S
set_auth_error message title is_fatal = set_auth (λ s. record s {
  setup_error = message;
  setup_error_title = some title;
  is_fatal_error = some is_fatal;
  auth_status = setup_error;
})

unfoldable pub confirm_user_canister_id : {S : Type 0} → String → Session S → Session S
unfolding set_auth_error
confirm_user_canister_id canister_id w =
    if is_empty canister_id
    then set_auth_error (some "Internal error: Invalid user canister ID received.")
        "Connection Error" false w
    else set_auth
        (λ s. record s {
          user_canister_id = some canister_id;
          auth_status = registered;
          setup_error = none;
          setup_error_title = none;
          is_fatal_error = some false;
          is_session_expired = false;
        })
        w

-- The check of the delegation: it holds, the trust in it is lost, or the call failed otherwise.
pub data Validation : Type 0 where
  valid expired failed : Validation

-- What `initAuth` is told: the client, whether it is authenticated, for whom, and the validation.
pub record InitAnswers : Type 0 where
  pub client : Result ℕ
  pub authenticated : Result Bool
  pub validation : Validation
  pub principal : String

pub data LoginAnswer : Type 0 where
  success : (principal : String) → LoginAnswer
  failure thrown : LoginAnswer

abbrev is_expired : Validation → Bool
is_expired expired = true
is_expired _ = false

abbrev init_error : Option String
init_error = some "Critical: AuthClient initialization failed. Please try refreshing the page."

module _ {S : Type 0} (reset_stores : S → S) where
  -- Whether the client's own `logout` fails makes no difference.
  unfoldable pub logout : Session S → Session S
  logout w = record {
    auth = record (w.auth) {
      auth_status = unauthenticated;
      principal = none;
      user_canister_id = none;
      user_storage_usage = 0;
      user_storage_limit = default_storage_limit;
      setup_error = none;
      is_session_expired = false;
      root_key = none;
    };
    cached_key = none;
    stores = reset_stores w.stores;
  }

  unfoldable pub handle_invalid_delegation_error : Session S → Session S
  unfolding logout
  handle_invalid_delegation_error w =
      if w.auth.is_session_expired
      then w
      else logout (set_auth (λ s. record s { is_session_expired = true }) w)

  pub start_init : Session S → Session S
  start_init =
      set_auth (λ s. record s {
        auth_status = initializing;
        setup_error = none;
        is_session_expired = false;
      })

  pub finish_init : ℕ → Bool → InitAnswers → Session S → Session S
  unfolding handle_invalid_delegation_error
  finish_init client is_authenticated a w =
      if is_authenticated && is_expired a.validation
      then handle_invalid_delegation_error w
      else set_auth
          (λ s. record s {
            auth_client = some client;
            principal = if is_authenticated then some a.principal else none;
            auth_status = if is_authenticated then pending_setup else unauthenticated;
            user_canister_id = none;
          })
          w

  unfoldable pub init_auth : InitAnswers → Session S → Session S
  unfolding start_init finish_init set_auth_error
  init_auth a w = elim a.client [
    | err _ ↦ set_auth_error init_error "Connection Error" false (start_init w)
    | ok client ↦ elim a.authenticated [
      | err _ ↦ set_auth_error init_error "Connection Error" false (start_init w)
      | ok is_authenticated ↦ finish_init client is_authenticated a (start_init w)
    ]
  ]

  unfoldable pub retry_user_setup : InitAnswers → Session S → Session S
  retry_user_setup a w =
      if (is_setup_error w.auth.auth_status && is_text w.auth.setup_error critical_init_error_msg)
        || (is_initializing w.auth.auth_status && not (is_some w.auth.auth_client))
      then init_auth a w
      else if is_some (given w.auth.principal) && is_setup_error w.auth.auth_status
      then set_auth
          (λ s. record s {
            auth_status = pending_setup;
            setup_error = none;
            setup_error_title = none;
            is_fatal_error = some false;
          })
          w
      else w

  after_login : LoginAnswer → Session S → Session S
  unfolding set_auth_error
  after_login (success p) w =
      set_auth
        (λ s. record s {
          principal = some p;
          auth_status = pending_setup;
          user_canister_id = none;
          setup_error = none;
          is_session_expired = false;
        })
        w
  after_login failure w =
      set_auth
        (λ s. record s {
          auth_status = unauthenticated;
          setup_error = some "Internet Identity login failed.";
        })
        w
  after_login thrown w = set_auth_error (some "Login process error.") "Connection Error" false w

  start_login : Option String → LoginAnswer → Session S → Session S
  unfolding after_login set_auth_error
  start_login ii_url answer w =
      let started =
        set_auth
          (λ s. record s {
            auth_status = authenticating_ii;
            setup_error = none;
            is_session_expired = false;
          })
          w in
      elim (given ii_url) [
        | none ↦
            set_auth_error (some "Configuration error: Missing Internet Identity URL.")
              "Connection Error" false started
        | some _ ↦ after_login answer started
      ]

  unfoldable pub login : Option String → InitAnswers → LoginAnswer → Session S → Session S
  unfolding start_login init_auth
  login ii_url a answer w =
      let ready = if is_some w.auth.auth_client then w else init_auth a w in
      if is_some ready.auth.auth_client
      then start_login ii_url answer ready
      else set_auth_error (some "Auth client failed to initialize.") "Connection Error" false ready
