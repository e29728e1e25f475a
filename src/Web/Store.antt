-- ===== src/Web/Store.antt =====
-- web/backend/database_postgres_session.py: the transaction that stores one session mutation.
pub mod Rows
pub mod Runs
pub mod Rewards
pub mod Commit
pub mod Laws
