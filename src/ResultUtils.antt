-- ===== src/ResultUtils.antt =====
-- gpt_frontend/src/utils/resultUtils.ts: results of the canisters, and the messages for their errors.
pub mod Codes
pub mod Setup
mod Tests
