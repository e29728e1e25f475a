-- ===== src/Web/Service/Laws.antt =====
-- What holds of the web service: its cache, the owners of its runners, and its requests.
pub mod Keys
pub mod Cache
pub mod Owned
pub mod Chosen
pub mod Versions
pub mod Commits
pub mod Turns
pub mod Saves
