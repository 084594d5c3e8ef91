-- ===== src/Pty.antt =====
-- pty/: terminal sessions, their output buffers, their subscribers, and how they are found.
pub mod Monitor
pub mod Session
pub mod Manager
pub mod WebSocket
mod Tests
