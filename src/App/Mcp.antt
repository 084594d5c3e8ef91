-- ===== src/App/Mcp.antt =====
-- app/mcp_server.go: the server that lets the assistants ask the index of their session.
--
-- A tool's answer is its text, or a message that it failed. The logs are left out.
pub mod Lines
pub mod Server
pub mod Tools
pub mod Handlers
pub mod Answers
pub mod Failing
pub mod Sourced
mod Tests
