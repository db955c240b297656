-- ===== src/Access.antt =====
-- The controls of internal/waf/middleware.go that ask who a client is and how often it comes.
pub mod RateLimit
pub mod CrowdSec
pub mod BasicAuth
mod Tests
