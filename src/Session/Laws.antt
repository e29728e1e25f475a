-- ===== src/Session/Laws.antt =====
-- What single fields of a delta do.
pub mod Empty
pub mod Attributes
pub mod Effects
pub mod Relations
pub mod Identity
pub mod Owned
