-- ===== src/CookieSession.antt =====
-- packages/cookiesession: sessions that live in encrypted cookies.
pub mod Codec
pub mod Cookies
pub mod Session
