-- ===== src/Ssh.antt =====
-- ssh/: hosts that sessions run on, and the connections to them.
pub mod Hosts
pub mod Session
pub mod Client
pub mod ProcessManager
pub mod HostManager
pub mod Reconnect
mod Tests
