-- ===== src/Proxy.antt =====
-- internal/waf/middleware_serve.go: the chain of controls that ServeHTTP is.
pub mod Serve
pub mod Chain
mod Tests
