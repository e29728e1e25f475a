-- ===== src/Engine.antt =====
-- src/agens_novel/engine: what a turn does, and what a run leaves.
pub mod Policy
pub mod Pending
pub mod Choices
pub mod Turns
pub mod Breakthrough
pub mod Rules
pub mod Rewards
pub mod History
