-- ===== src/Session/Git/Setup.antt =====
-- session/git/worktree_ops.go: Setup, Cleanup and the removal of all worktrees.
pub mod Kept
pub mod Branch
mod Tests
use claude_squad_ide.Base.{
  ℕ, zero, suc, ◌+◌, Bool, true, false, not, ◌&&◌, ◌||◌, List, [], ◌∷◌, ◌++◌, Option, none, some,
  Text, codes, text_eq, trim_space, trim_prefix, contains, has_prefix, is_empty, split, Assoc,
  insert, join, if◌then◌else◌,
}
use claude_squad_ide.Session.Instance.World.{Worktree, Failure, Reply, ok, err}
use claude_squad_ide.Session.Git.Command.{
  Shell, Found, present, missing, unknown, M, continue, ◌>>=◌, ◌>>◌, return, fail, on_world,
  or_fail, git, try_git, run_git,
}
use claude_squad_ide.Session.Git.Branches.{is_ok}
use claude_squad_ide.Session.Git.Worktrees.{init_and_fetch_submodules}

abbrev pub set_base : {W : Type 0} → Text → M W (Unit {0})
set_base commit (g, w) = (ok tt, (record g { base_commit_sha = commit }, w))

-- `git worktree remove -f`, whose error is passed over.
abbrev pub remove_worktree : {W : Type 0} → Shell W → Worktree → M W (Text × Option Text)
remove_worktree sh g =
    try_git sh g.repo_path (codes "worktree" ∷ codes "remove" ∷ codes "-f" ∷ g.worktree_path ∷ [])

abbrev pub delete_branch : {W : Type 0} → Shell W → Worktree → M W (Text × Option Text)
delete_branch sh g = try_git sh g.repo_path (codes "branch" ∷ codes "-D" ∷ g.branch_name ∷ [])

abbrev pub show_ref : {W : Type 0} → Shell W → Worktree → Text → M W (Text × Option Text)
show_ref sh g ref =
    try_git sh g.repo_path (codes "show-ref" ∷ codes "--verify" ∷ (ref ++ g.branch_name) ∷ [])

abbrev pub add_tracking :
    {W : Type 0} → Shell W → Worktree → Text × Option Text → M W (List Failure)
add_tracking sh g (out, some e) =
    fail (codes "branch " ++ (g.branch_name ++ codes " not found locally or on remote"))
add_tracking sh g (out, none) = do
  git sh (codes "failed to create worktree from remote branch " ++ (g.branch_name ++ codes ": "))
      g.repo_path
      (codes "worktree"
        ∷ codes "add"
        ∷ codes "-b"
        ∷ g.branch_name
        ∷ g.worktree_path
        ∷ (codes "origin/" ++ g.branch_name)
        ∷ [])
  init_and_fetch_submodules sh

abbrev pub add_existing :
    {W : Type 0} → Shell W → Worktree → Text × Option Text → M W (List Failure)
add_existing sh g (out, some e) = do
  remote ← show_ref sh g (codes "refs/remotes/origin/")
  add_tracking sh g remote
add_existing sh g (out, none) = do
  git sh (codes "failed to create worktree from branch " ++ (g.branch_name ++ codes ": "))
      g.repo_path (codes "worktree" ∷ codes "add" ∷ g.worktree_path ∷ g.branch_name ∷ [])
  init_and_fetch_submodules sh

unfoldable pub setup_from_existing_branch : {W : Type 0} → Shell W → Worktree → M W (List Failure)
setup_from_existing_branch sh g = do
  remove_worktree sh g
  here ← show_ref sh g (codes "refs/heads/")
  add_existing sh g here

-- The text of an error of `rev-parse HEAD`.
abbrev pub head_error : Text → Text
head_error e =
    if contains e (codes "fatal: ambiguous argument 'HEAD'")
      || contains e (codes "fatal: not a valid object name")
      || contains e (codes "fatal: HEAD: not a valid object name")
    then codes
        "this appears to be a brand new repository: please create an initial commit before creating an instance"
    else codes "failed to get HEAD commit hash: " ++ e

-- A worktree with a new branch at `ref`, whose commit is recorded.
abbrev pub add_new : {W : Type 0} → Shell W → Worktree → Text → Text → Text → M W (List Failure)
add_new sh g origin commit ref = do
  set_base commit
  git sh (codes "failed to create worktree from " ++ (origin ++ (ref ++ codes ": "))) g.repo_path
      (codes "worktree" ∷ codes "add" ∷ codes "-b" ∷ g.branch_name ∷ g.worktree_path ∷ ref ∷ [])
  init_and_fetch_submodules sh

unfoldable pub setup_new_worktree : {W : Type 0} → Shell W → Worktree → M W (List Failure)
setup_new_worktree sh g = do
  remove_worktree sh g
  delete_branch sh g
  head ← try_git sh g.repo_path (codes "rev-parse" ∷ codes "HEAD" ∷ [])
  out ← or_fail head_error head
  add_new sh g (codes "commit ") (trim_space out) (trim_space out)

unfoldable pub setup_from_ref : {W : Type 0} → Shell W → Worktree → M W (List Failure)
setup_from_ref sh g = do
  remove_worktree sh g
  delete_branch sh g
  out ←
      git sh (codes "failed to resolve ref " ++ (g.base_ref ++ codes ": ")) g.repo_path
        (codes "rev-parse" ∷ g.base_ref ∷ [])
  add_new sh g (codes "ref ") (trim_space out) g.base_ref

-- A result with no output.
abbrev pub no_output : Option Text → Text × Option Text
no_output e = ([], e)

abbrev pub directory_error : Text × Option Text → Text × Option Text
directory_error (out, none) = (out, none)
directory_error (out, some e) =
    (out, some (codes "failed to create remote worktree directory: " ++ e))

unfoldable pub make_parent : {W : Type 0} → Shell W → Worktree → W → (Text × Option Text) × W
make_parent sh g w =
    let parent = sh.dir_of g.worktree_path in
    let (r, w') = sh.run [] (codes "mkdir" ∷ codes "-p" ∷ parent ∷ []) w in
    if sh.is_remote
    then (directory_error r, w')
    else (no_output (sh.mkdir_all parent w).0, (sh.mkdir_all parent w).1)

abbrev pub setup_new_or_existing :
    {W : Type 0} → Shell W → Worktree → Text × Option Text → M W (List Failure)
setup_new_or_existing sh g (out, none) = setup_from_existing_branch sh g
setup_new_or_existing sh g (out, some e) = setup_new_worktree sh g

abbrev pub setup_branch : {W : Type 0} → Shell W → Worktree → M W (List Failure)
setup_branch sh g =
    if g.is_existing_branch
    then setup_from_existing_branch sh g
    else if not (is_empty g.base_ref)
    then setup_from_ref sh g
    else show_ref sh g (codes "refs/heads/") >>= setup_new_or_existing sh g

unfoldable pub setup : {W : Type 0} → Shell W → M W (List Failure)
unfolding setup_from_existing_branch setup_new_worktree setup_from_ref make_parent
setup sh (g, w) =
    (on_world (make_parent sh g) >>= or_fail (λ e. e) >>= λ _. setup_branch sh g) (g, w)

-- Cleanup. Each step adds its error, if any, to the list.
abbrev pub errors_of : Text × Option Text → List Text
errors_of (out, none) = []
errors_of (out, some e) = e ∷ []

-- An error that names a branch that is not found is passed over.
abbrev pub branch_errors : Text → Text × Option Text → List Text
branch_errors branch (out, none) = []
branch_errors branch (out, some e) =
    if contains e (codes "not found")
    then []
    else (codes "failed to remove branch " ++ (branch ++ (codes ": " ++ e))) ∷ []

abbrev pub found_errors : Found → Bool × List Text
found_errors present = (true, [])
found_errors missing = (false, [])
found_errors (unknown e) = (false, (codes "failed to check worktree path: " ++ e) ∷ [])

unfoldable pub find_worktree : {W : Type 0} → Shell W → Worktree → W → (Bool × List Text) × W
find_worktree sh g w =
    let (r, w') = sh.run [] (codes "test" ∷ codes "-d" ∷ g.worktree_path ∷ []) w in
    if sh.is_remote then ((is_ok r, []), w') else (found_errors (sh.stat g.worktree_path w), w)

-- A command that is run only under a test, with its errors.
abbrev pub run_if :
    {W : Type 0}
    → Bool
    → (W → (Text × Option Text) × W)
    → (Text × Option Text → List Text)
    → W
    → List Text × W
run_if b f errors w = if b then (errors (f w).0, (f w).1) else ([], w)

abbrev pub error_lines : List Text → Text
error_lines [] = []
error_lines (e ∷ es) = codes "\n  - " ++ (e ++ error_lines es)

abbrev pub combine_errors : List Text → Option Text
combine_errors [] = none
combine_errors (e ∷ []) = some e
combine_errors (e ∷ e' ∷ es) = some (codes "multiple errors occurred:" ++ error_lines (e ∷ e' ∷ es))

abbrev pub prune_errors : Text × Option Text → List Text
prune_errors (out, none) = []
prune_errors (out, some e) = (codes "failed to prune worktrees: " ++ e) ∷ []

unfoldable pub cleanup : {W : Type 0} → Shell W → Worktree → W → Option Text × W
unfolding find_worktree
cleanup sh g w =
    let ((there, e₀), w₀) = find_worktree sh g w in
    let (e₁, w₁) =
      run_if there
        (run_git sh g.repo_path
          (codes "worktree" ∷ codes "remove" ∷ codes "-f" ∷ g.worktree_path ∷ []))
        errors_of w₀ in
    let (e₂, w₂) =
      run_if (not g.is_existing_branch)
        (run_git sh g.repo_path (codes "branch" ∷ codes "-D" ∷ g.branch_name ∷ []))
        (branch_errors g.branch_name) w₁ in
    let (r, w₃) = run_git sh g.repo_path (codes "worktree" ∷ codes "prune" ∷ []) w₂ in
    (combine_errors (e₀ ++ (e₁ ++ (e₂ ++ prune_errors r))), w₃)

-- The map that CleanupWorktrees reads from `git worktree list --porcelain`, after the worktree that
-- the lines so far are about.
unfoldable pub worktree_branches : Text → Assoc Text → List Text → Assoc Text
worktree_branches current m [] = m
worktree_branches current m (l ∷ ls) =
    let moved = worktree_branches (trim_prefix l (codes "worktree ")) m ls in
    let named =
      worktree_branches current
        (if is_empty current
          then m
          else insert current (trim_prefix (trim_prefix l (codes "branch ")) (codes "refs/heads/"))
              m)
        ls in
    let skipped = worktree_branches current m ls in
    if has_prefix l (codes "worktree ")
    then moved
    else if has_prefix l (codes "branch ")
    then named
    else skipped

-- The branch of the first path that has the name in it, in the order of the map.
unfoldable pub branch_for : Text → Assoc Text → Option Text
branch_for name [] = none
branch_for name ((path, branch) ∷ m) = if contains path name then some branch else branch_for name m

-- The branches that CleanupWorktrees deletes, for the folders of the worktree directory in turn.
unfoldable pub branches_to_delete : List Text → Assoc Text → List Text
unfolding branch_for
branches_to_delete [] m = []
branches_to_delete (name ∷ names) m = elim (branch_for name m) [
  | none ↦ branches_to_delete names m
  | some b ↦ b ∷ branches_to_delete names m
]
