-- ===== src/ChatStore/Setters.antt =====
-- gpt_frontend/src/store/chatStore/actions/setters: the actions that write the state directly.
pub mod Status
pub mod Config
pub mod Attachments
pub mod Chat
