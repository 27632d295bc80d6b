-- ===== src/FileStore/Tests.antt =====
-- The theorems on the file store at small stores.
mod Queue
mod Folders
