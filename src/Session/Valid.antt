-- ===== src/Session/Valid.antt =====
-- The invariant of a session, and that applying a delta keeps it.
pub mod Distinct
pub mod Texts
pub mod Attributes
pub mod People
pub mod Record
pub mod Sections
pub mod Apply
