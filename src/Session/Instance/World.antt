-- ===== src/Session/Instance/World.antt =====
-- session/instance.go: what an instance uses: the process manager, git, and the operating system.
use claude_squad_ide.Base.{Bool, List, Option, Text}

-- session/git/worktree.go, type GitWorktree, as far as an instance sees it.
pub record Worktree : Type 0 where
  pub repo_path : Text
  pub worktree_path : Text
  pub session_name : Text
  pub branch_name : Text
  pub base_commit_sha : Text
  pub is_existing_branch : Bool
  pub base_ref : Text

-- session/git/submodule_result.go, type SubmoduleSetupResult.
pub record Failure : Type 0 where
  pub name : Text
  pub stage : Text
  pub message : Text

pub data Reply {ℓ} (A : Type ℓ) : Type ℓ where
  ok : A → Reply A
  err : Text → Reply A

pub record Env (W : Type 0) : Type 0 where
  -- The interface ProcessManager: program, arguments, directory, environment.
  pub spawn : Text → List Text → Text → List Text → W → Reply Text × W
  pub kill : Text → W → Option Text × W
  pub wait_exit : Text → W → Bool × W
  pub get_content : Text → W → Text
  -- session/cleanup.go
  pub kill_worktree_processes : Text → W → W
  -- session/git: methods of GitWorktree. `setup` records the base commit in the worktree.
  pub setup : Worktree → W → Reply (List Failure) × (Worktree × W)
  pub cleanup : Worktree → W → Option Text × W
  pub is_branch_checked_out : Worktree → W → Reply Bool × W
  -- session/git: functions on a repository's path.
  pub current_branch : Text → W → Reply Text × W
  pub fetch_branches : Text → W → W
  pub default_branch : Text → W → Text
  pub new_worktree_from_ref : Text → Text → Text → W → Reply (Worktree × Text) × W
  pub new_worktree : Text → Text → W → Reply (Worktree × Text) × W
  -- The operating system.
  pub path_exists : Text → W → Bool
  pub look_path : Text → W → Bool
  pub home_dir : W → Option Text
  pub stat : Text → W → Bool
  pub join : List Text → Text
  pub generate_uuid : W → Text × W
