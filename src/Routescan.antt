-- ===== src/Routescan.antt =====
-- packages/sveltego/internal/routescan: what the names of route directories say.
pub mod Segments
