-- ===== src/Detector.antt =====
-- The service of services/synit-llm-guard/main.go, which scores texts with a classification model for
-- the sidecar interface that internal/waf/llm_protection.go queries.
pub mod Chunks
pub mod Windows
pub mod Infer
pub mod Serve
pub mod Scores
pub mod Answers
pub mod Reference
mod Tests
