-- ===== src/Server.antt =====
-- packages/sveltego/server: the request pipeline's parts.
pub mod Actions
pub mod Csrf
pub mod Handle
pub mod Resolve
pub mod Script
pub mod Slash
