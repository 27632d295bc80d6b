-- ===== src/Mappers.antt =====
-- gpt_frontend/src/utils/mappers.ts: the errors of the backend in the client's form. A variant of
-- the backend is the constructor of its only key; `other_kind` stands for any other key.
pub mod ErrorStatus
