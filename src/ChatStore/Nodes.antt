-- ===== src/ChatStore/Nodes.antt =====
-- gpt_frontend/src/store/chatStore/actions/node: the nodes that can serve a chat.
pub mod Pick
pub mod Reconcile
pub mod Fetch
pub mod Create
