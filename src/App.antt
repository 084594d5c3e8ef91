-- ===== src/App.antt =====
-- app/: the index of a repository's code that the assistants ask.
pub mod CallGraph
pub mod Sessions
pub mod Hosts
pub mod Index
pub mod Memory
pub mod Ctags
pub mod Files
pub mod Mcp
mod Tests
