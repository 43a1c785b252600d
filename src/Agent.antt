-- ===== src/Agent.antt =====
-- The AI agent service (agent/).
pub mod Store
pub mod World
pub mod StateManager
pub mod ChatHistory
pub mod Config
pub mod Outside
pub mod AuthManager
pub mod OAuth
pub mod Mcp
pub mod Chat
pub mod Tools
pub mod Streams
pub mod Llm
pub mod ConfigCache
mod Fixture
