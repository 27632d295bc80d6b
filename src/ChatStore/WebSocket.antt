-- ===== src/ChatStore/WebSocket.antt =====
-- gpt_frontend/src/store/chatStore/actions/webSocket: the stream of one job from its node.
pub mod Url
pub mod Find
pub mod Failure
pub mod Handler
pub mod Connection
