-- ===== src/Fallback.antt =====
-- packages/sveltego/runtime/svelte/fallback: rendering through a sidecar process.
pub mod Cache
