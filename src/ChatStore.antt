-- ===== src/ChatStore.antt =====
-- gpt_frontend/src/store/chatStore: the state of the chats and the actions on it.
pub mod State
pub mod Setters
pub mod Messages
pub mod TitleGeneration
pub mod Ocr
pub mod WebSocket
pub mod Nodes
pub mod Chats
pub mod Queue
pub mod Blacklist
pub mod MessageData
mod Tests
