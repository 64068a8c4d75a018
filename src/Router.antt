-- ===== src/Router.antt =====
-- runtime/router: the route table, its construction and the matching of a path.
pub mod Segment
pub mod Tree
pub mod Spec
pub mod Table
pub mod State
pub mod Split
pub mod Match
pub mod Resolve
pub mod Paths
pub mod Replaced
mod Tests
