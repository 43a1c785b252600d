-- ===== src/Web.antt =====
-- The web application (webapp/).
pub mod Session
pub mod Claims
pub mod Login
pub mod ApiProxy
pub mod Access
pub mod Branding
pub mod Identity
pub mod Chat
pub mod Subscription
pub mod Signup
pub mod Agents
pub mod Admin
pub mod Locale
mod Tests
