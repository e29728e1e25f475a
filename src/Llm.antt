-- ===== src/Llm.antt =====
-- src/agens_novel/llm: the calls of the model.
pub mod Retry
pub mod Sse
