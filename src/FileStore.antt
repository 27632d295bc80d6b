-- ===== src/FileStore.antt =====
-- gpt_frontend/src/store/fileStore: the user's files and folders, the queue of uploads, and the index
-- of the texts that are searched.
pub mod State
pub mod Uploads
pub mod Read
pub mod Write
pub mod Index
mod Tests
