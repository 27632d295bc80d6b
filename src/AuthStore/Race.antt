-- ===== src/AuthStore/Race.antt =====
-- actions/vault.ts and lifecycle.ts together: a logout while the vault is being set up or unlocked.
use gpt.Prelude.{String, ◌≡◌, refl, true, false, ◌&&◌, none, some, is_some, ok, is_empty, given}
use gpt.AuthStore.State.{registered, Session}
use gpt.AuthStore.Lifecycle.{logout}
use gpt.AuthStore.Vault.{Whoami, has_canister, open_vault, unlock_vault, verified}
use gpt.AuthStore.Vault.{setup_vault as create_vault}

-- Registered, with the key in memory and in the session storage, but with no user and no canister.
abbrev pub IsStranded : {S : Type 0} → String → Session S → Type 0
IsStranded key v =
    (v.auth.auth_status ≡ registered)
    × (v.auth.root_key ≡ some key)
    × (v.cached_key ≡ some key)
    × (v.auth.principal ≡ none)
    × (v.auth.user_canister_id ≡ none)

-- If the user logs out while the setup of the vault waits for the canister, or while its unlocking
-- waits, after whatever else has run meanwhile, and the awaited answers are then good, the session that
-- was logged out counts as registered again, with the key of the vault in memory and in the session
-- storage, but knows neither the user nor the canister.
pub setup_vault-unlock_vault-raced :
    {S : Type 0} (reset_stores : S → S) (others : Session S → Session S) (key : String)
    (who : Whoami) (w : Session S)
    → has_canister w.auth ≡ true
    → (is_some (given who.enc_salt) && is_some (given who.enc_validator)) ≡ true
    → is_empty key ≡ false
    → let meanwhile = λ (u : Session S). logout reset_stores (others u) in
      IsStranded key (create_vault meanwhile (ok key) w)
      × IsStranded key (unlock_vault meanwhile (ok who) (ok (some key)) w).0
unfolding unlock_vault create_vault verified open_vault logout
setup_vault-unlock_vault-raced reset_stores others key who w known salted filled = (
  rw known (refl, refl, refl, refl, refl),
  rw (known, salted, verified, filled) (refl, refl, refl, refl, refl),
)
