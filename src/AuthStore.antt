-- ===== src/AuthStore.antt =====
-- gpt_frontend/src/store/authStore: the session of a user, from the first visit to the open vault.
pub mod State
pub mod Lifecycle
pub mod Vault
pub mod Registration
pub mod Invariant
pub mod Race
mod Tests
