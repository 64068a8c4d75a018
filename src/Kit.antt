-- ===== src/Kit.antt =====
-- The request-side kit: page options, cookies and the CSRF token.
pub mod PageOptions
pub mod Cookies
