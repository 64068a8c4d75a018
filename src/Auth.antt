-- ===== src/Auth.antt =====
-- packages/auth: the identity records, the in-memory storage adapter and the CSRF middleware.
pub mod Identity
pub mod Memory
pub mod Csrf
