-- ===== src/Web.antt =====
-- web/backend: the web service.
pub mod Store
pub mod Limiter
pub mod Body
pub mod Service
pub mod Auth
