-- ===== src/Session/Instance.antt =====
-- session/instance.go: an instance, and the operations that start, pause, resume and kill it.
--
-- The state that the operations share with the processes, git and the file system is a world `W`,
-- which the operations of `Env` read and change. An operation returns the nil error as `none`.
pub mod World
pub mod Life
mod Keeps
pub mod Lifecycle
pub mod Failures
use claude_squad_ide.Base.{
  ℕ, Bool, true, false, ◌&&◌, ◌||◌, not, List, [], ◌∷◌, ◌++◌, Option, none, some, is_none, is_empty,
  any, Text, codes, has_suffix, contains, fields, text_eq, find, ◌==◌, if◌then◌else◌,
}
use World.{Env, Worktree, Failure, Reply, ok, err}

pub data Status : Type 0 where
  running ready loading paused : Status

abbrev pub is_paused : Status → Bool
is_paused paused = true
is_paused _ = false

-- session/git/diff.go, type DiffStats, without its error.
pub record DiffStats : Type 0 where
  pub added : ℕ
  pub removed : ℕ
  pub content : Text

-- Times are numbers; a zero time is 0.
pub record Instance : Type 0 where
  pub title : Text
  pub path : Text
  pub branch : Text
  pub status : Status
  pub program : Text
  pub height : ℕ
  pub width : ℕ
  pub created_at : ℕ
  pub updated_at : ℕ
  pub auto_yes : Bool
  pub idle_since : ℕ
  pub last_viewed : ℕ
  pub auto_paused : Bool
  pub diff_stats : Option DiffStats
  pub claude_session_id : Text
  pub host_id : Text
  pub mcp_config : Text
  pub selected_branch : Text
  pub in_place : Bool
  pub started : Bool
  -- Whether a process manager is set.
  pub process_manager : Bool
  -- Empty: no process.
  pub process_id : Text
  pub git_worktree : Option Worktree
  pub submodule_failures : List Failure

pub data Error : Type 0 where
  empty_title process_manager_not_set program_empty : Error
  not_started already_paused not_paused branch_checked_out : Error
  no_worktree already_started : Error
  caused : Text → Error
  -- A failure and the error of the cleanup after it.
  caused_twice : Error → Text → Error
  several : List Text → Error

-- An operation on an instance in its world.
abbrev pub Op : Type 0 → Type 0
Op W = Instance × W → Option Error × (Instance × W)

-- `combineErrors`
abbrev pub combine_errors : List Text → Option Error
combine_errors [] = none
combine_errors (e ∷ []) = some (caused e)
combine_errors (e ∷ e' ∷ es) = some (several (e ∷ e' ∷ es))

-- `exec.LookPath` and then the usual folders, for a name with no separator in a local session.
abbrev first_present : Text → Option Text → Text
first_present program none = program
first_present program (some c) = c

unfoldable pub resolve_program : {W : Type 0} → Env W → Text → Text → W → Text
resolve_program env host_id program w =
    let candidates = λ (home : Text).
      env.join (home ∷ codes ".local" ∷ codes "bin" ∷ program ∷ [])
      ∷ env.join (codes "/usr" ∷ codes "local" ∷ codes "bin" ∷ program ∷ [])
      ∷ env.join (home ∷ codes ".npm-global" ∷ codes "bin" ∷ program ∷ [])
      ∷ [] in
    if is_empty host_id && not (any (λ c. c == b'/') program) && not (env.look_path program w)
    then (elim (env.home_dir w) [
      | none ↦ program
      | some home ↦ first_present program (find (λ c. env.stat c w) (candidates home))
    ])
    else program

-- The lines of `spawnProcess` that build the arguments and the environment.
abbrev with_mcp : List Text → Text → List Text × List Text
with_mcp args [] = (args, [])
with_mcp args (c ∷ config) =
    (args ++ codes "--mcp-config" ∷ (c ∷ config) ∷ [], codes "ENABLE_TOOL_SEARCH=false" ∷ [])

unfoldable pub claude_args :
    {W : Type 0}
    → Env W
    → Bool
    → List Text
    → Instance
    → W
    → (List Text × List Text) × (Instance × W)
claude_args env resume args i w =
    let base = args ++ codes "--allow-dangerously-skip-permissions" ∷ [] in
    let (id, w') = env.generate_uuid w in
    if resume
    then (with_mcp (base ++ codes "--continue" ∷ []) i.mcp_config, (i, w))
    else if is_empty i.claude_session_id
    then (
      with_mcp (base ++ codes "--session-id" ∷ id ∷ []) i.mcp_config,
      (record i { claude_session_id = id }, w'),
    )
    else (with_mcp base i.mcp_config, (i, w))

abbrev pub clean_orphans : {W : Type 0} → Env W → Option Worktree → W → W
clean_orphans env none w = w
clean_orphans env (some wt) w = env.kill_worktree_processes wt.worktree_path w

abbrev started_process :
    {W : Type 0} → Bool → Instance → Reply Text × W → (Option Error × Bool) × (Instance × W)
started_process is_claude i (err e, w) = ((some (caused e), is_claude), (i, w))
started_process is_claude i (ok id, w) = ((none, is_claude), (record i { process_id = id }, w))

abbrev spawn_program :
    {W : Type 0}
    → Env W
    → Text
    → Bool
    → List Text
    → Instance × W
    → (Option Error × Bool) × (Instance × W)
spawn_program env dir resume [] s = ((some program_empty, false), s)
spawn_program env dir resume (name ∷ args) (i, w) =
    let program = resolve_program env i.host_id name w in
    let is_claude = has_suffix program (codes "claude") in
    let ((args', spawn_env), (i', w')) =
      if is_claude then claude_args env resume args i w else ((args, []), (i, w)) in
    started_process is_claude i' (env.spawn program args' dir spawn_env w')

-- `spawnProcess` up to the place where the process runs; the flag says whether it is claude.
unfoldable pub launch :
    {W : Type 0} → Env W → Text → Bool → Instance × W → (Option Error × Bool) × (Instance × W)
unfolding resolve_program claude_args
launch env dir resume (i, w) =
    if i.process_manager
    then spawn_program env dir resume (fields i.program) (i, clean_orphans env i.git_worktree w)
    else ((some process_manager_not_set, false), (i, w))

-- `if exited := …; exited { … }`: a process that did not find its conversation is replaced by a
-- fresh one.
abbrev no_conversation : Text → Bool
no_conversation output =
    contains output (codes "No conversation found")
    || contains output (codes "no recent conversation")

abbrev retry_fresh :
    {W : Type 0} → Env W → Text → Instance × (Bool × W) → Option Error × (Instance × W)
retry_fresh env dir (i, (exited, w)) =
    let (_, w') = env.kill i.process_id w in
    let (fresh, s) = launch env dir false (record i { claude_session_id = [] }, w') in
    if exited && no_conversation (env.get_content i.process_id w)
    then (fresh.0, s)
    else (none, (i, w))

abbrev after_launch :
    {W : Type 0}
    → Env W
    → Text
    → Bool
    → (Option Error × Bool) × (Instance × W)
    → Option Error × (Instance × W)
after_launch env dir resume ((some e, is_claude), s) = (some e, s)
after_launch env dir resume ((none, is_claude), (i, w)) =
    if is_claude && resume
    then retry_fresh env dir (i, env.wait_exit i.process_id w)
    else (none, (i, w))

-- `spawnProcess`
unfoldable pub spawn_process : {W : Type 0} → Env W → Text → Bool → Op W
unfolding launch
spawn_process env dir resume s = after_launch env dir resume (launch env dir resume s)
