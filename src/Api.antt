-- ===== src/Api.antt =====
-- The Business API (api/).
pub mod Table
pub mod Auth
pub mod Meetings
pub mod Records
pub mod Schemas
mod Tests
