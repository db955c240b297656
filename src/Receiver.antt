-- ===== src/Receiver.antt =====
-- The service of services/ai-logs-receiver/main.go, which appends the log lines of tenants to files.
pub mod Failures
pub mod Throttle
pub mod Window
pub mod Lines
pub mod Tokens
pub mod Store
pub mod Quota
pub mod Texts
pub mod Serve
pub mod Cases
pub mod Calls
pub mod Retention
pub mod Ready
pub mod Memory
mod Tests
