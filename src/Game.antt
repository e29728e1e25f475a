-- ===== src/Game.antt =====
-- src/agens_novel/game: the constants of the rules, and the realm system.
pub mod Attributes
pub mod Realms
pub mod Progress
