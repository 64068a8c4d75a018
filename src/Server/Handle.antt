-- ===== src/Server/Handle.antt =====
-- server/pipeline.go, `handle`, and server/errors.go: how a request that failed is answered.
pub mod Writer
pub mod Chain
pub mod Errors
pub mod Entry
pub mod Headers
pub mod Fields
pub mod Hidden
pub mod Signals
mod Tests
