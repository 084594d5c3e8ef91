-- ===== src/Session/Git.antt =====
-- session/git/: worktrees, branches and the commands that are run for them.
pub mod Names
pub mod Shell
pub mod DiffFiles
pub mod Retry
pub mod Command
pub mod Branches
pub mod Worktrees
pub mod Setup
pub mod Diff
pub mod Requests
mod Tests
