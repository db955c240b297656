-- ===== src/Llm.antt =====
-- internal/waf/llm_protection.go: the cutting of texts, the queries to the sidecar and the handler.
pub mod Split
pub mod Chunks
pub mod Ends
pub mod Sidecar
pub mod Guard
pub mod Verdict
mod Tests
