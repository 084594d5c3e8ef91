-- ===== src/Session.antt =====
-- session/: the sessions of an assistant, their life cycle and how they are stored.
pub mod Instance
pub mod Storage
pub mod Git
mod Tests
