-- ===== src/Session.antt =====
-- src/agens_novel/session: the state of one run, and what a rule-authorized delta does to it.
pub mod State
pub mod Delta
pub mod Valid
pub mod Laws
