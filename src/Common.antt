-- ===== src/Common.antt =====
-- The security helpers that the services share (common/).
pub mod Jwt
pub mod Service
pub mod Token
pub mod Tls
pub mod RateLimit
mod Tests
