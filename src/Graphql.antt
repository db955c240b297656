-- ===== src/Graphql.antt =====
-- internal/waf/graphql.go.
pub mod Nesting
pub mod Balance
pub mod Document
pub mod Fuel
pub mod Depth
pub mod Introspection
pub mod Check
pub mod Accepts
pub mod Serve
pub mod Passes
mod Tests
