-- ===== src/Request.antt =====
-- internal/waf/request_info.go and the reading of the client's address.
pub mod Text
pub mod Paths
pub mod Clean
pub mod Body
pub mod Encoding
pub mod Address
pub mod ClientIp
mod Tests
