-- ===== src/Agent/Mcp.antt =====
-- agent/mcp_server.py: the tools that act with a delegated token.
pub mod Token
pub mod Reply
pub mod Preview
pub mod Action
pub mod Server
pub mod Authority
mod Tests
