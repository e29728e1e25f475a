-- ===== src/Web/Store/Laws.antt =====
-- The laws of the session transaction.
pub mod Steps
pub mod Replay
pub mod Recorded
pub mod Later
pub mod Versions
pub mod Settled
pub mod Frozen
