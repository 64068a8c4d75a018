-- ===== src/Render.antt =====
-- packages/sveltego/render: what a compiled template writes.
pub mod Escape
