-- ===== src/Agent/Llm.antt =====
-- agent/gemini_agent.py: the run of the agent.
pub mod Html
pub mod Messages
pub mod Mock
pub mod Authorized
pub mod Turns
pub mod Stream
pub mod Prompt
pub mod Agent
mod Tests
