-- ===== src/Game/Progress.antt =====
-- src/agens_novel/game/realm.py, with the draws of src/agens_novel/rule_rng.py: the stages of a
-- realm, and the breakthrough to the next.
pub mod Eligibility
pub mod Chance
pub mod Attempt
pub mod Stages
pub mod Laws
pub mod Attempts
pub mod Ready
pub mod Applied
