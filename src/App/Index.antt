-- ===== src/App/Index.antt =====
-- app/: searching the index within a budget of tokens, and the symbols that a change touches.
pub mod Search
pub mod Changes
pub mod Build
mod Tests
