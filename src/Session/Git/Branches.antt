-- ===== src/Session/Git/Branches.antt =====
-- session/git/worktree_git.go: branches of a repository, and what is committed and pushed.
pub mod Search
use claude_squad_ide.Base.{
  ℕ, zero, suc, ◌+◌, Bool, true, false, not, ◌&&◌, ◌||◌, List, [], ◌∷◌, ◌++◌, Option, none, some,
  Text, codes, text_eq, trim_space, trim_prefix, contains, is_empty, split, any, leb, length,
  if◌then◌else◌,
}
use claude_squad_ide.Session.Instance.World.{Worktree, Reply, ok, err}
use claude_squad_ide.Session.Git.Command.{
  Shell, M, continue, ◌>>=◌, ◌>>◌, return, fail, on_world, or_fail, git, try_git, run_git,
}

abbrev pub is_ok : Text × Option Text → Bool
is_ok (out, none) = true
is_ok (out, some e) = false

-- The name of a `refs/remotes/origin/...` reference, if the output is one.
abbrev pub stripped : Text → Option Text
stripped out =
    let ref = trim_space out in
    let name = trim_prefix ref (codes "refs/remotes/origin/") in
    if text_eq name ref then none else some name

abbrev pub head_of_remote : Text × Option Text → Option Text
head_of_remote (out, none) = stripped out
head_of_remote (out, some e) = none

unfoldable pub first_remote : {W : Type 0} → Shell W → Text → List Text → W → Text × W
first_remote sh repo [] w = (codes "main", w)
first_remote sh repo (c ∷ cs) w =
    let (r, w') =
      sh.run repo
        (codes "git"
          ∷ codes "show-ref"
          ∷ codes "--verify"
          ∷ (codes "refs/remotes/origin/" ++ c)
          ∷ [])
        w in
    let rest = first_remote sh repo cs w' in if is_ok r then (c, w') else rest

abbrev pub or_remote : {W : Type 0} → Option Text → W → (W → Text × W) → Text × W
or_remote none w k = k w
or_remote (some name) w k = (name, w)

unfoldable pub get_default_branch : {W : Type 0} → Shell W → Text → W → Text × W
unfolding first_remote
get_default_branch sh repo w =
    let (r, w') =
      sh.run repo (codes "git" ∷ codes "symbolic-ref" ∷ codes "refs/remotes/origin/HEAD" ∷ []) w in
    or_remote (head_of_remote r) w' (first_remote sh repo (codes "main" ∷ codes "master" ∷ []))

unfoldable pub get_current_branch : {W : Type 0} → Shell W → Text → W → Reply Text × W
get_current_branch sh repo w =
    let (r, w') = sh.run repo (codes "git" ∷ codes "branch" ∷ codes "--show-current" ∷ []) w in
    (elim r.1 [ none ↦ ok (trim_space r.0) | some e ↦ err e ], w')

abbrev pub max_branch_search_results : ℕ
max_branch_search_results = 50

abbrev pub is_skipped : List Text → Text → Bool
is_skipped seen name =
    is_empty name || contains name (codes "HEAD") || any (λ s. text_eq s name) seen

-- The loop of SearchBranches; `seen` are the names met, and `room` is how many more fit.
unfoldable pub collect_branches : (Text → Bool) → ℕ → List Text → List Text → List Text
collect_branches wanted zero seen lines = []
collect_branches wanted (suc room) seen [] = []
collect_branches wanted (suc room) seen (l ∷ ls) =
    let name = trim_space l in
    let skip = collect_branches wanted (suc room) seen ls in
    let unwanted = collect_branches wanted (suc room) (name ∷ seen) ls in
    let more = name ∷ collect_branches wanted room (name ∷ seen) ls in
    if is_skipped seen name then skip else if wanted name then more else unwanted

-- `output` is that of `git branch -a`, and `to_lower` is `strings.ToLower`.
unfoldable pub search_branches : (Text → Text) → Text → Text → List Text
unfolding collect_branches
search_branches to_lower filter output =
    collect_branches (λ name. is_empty filter || contains (to_lower name) (to_lower filter))
      max_branch_search_results [] (split b'\n' (trim_space output))

unfoldable pub is_dirty : {W : Type 0} → Shell W → M W Bool
is_dirty sh (g, w) =
    continue
      (git sh (codes "failed to check worktree status: ") g.worktree_path
        (codes "status" ∷ codes "--porcelain" ∷ []) (g, w))
      (λ out. return (not (is_empty out)))

unfoldable pub is_branch_checked_out : {W : Type 0} → Shell W → M W Bool
is_branch_checked_out sh (g, w) =
    continue
      (git sh (codes "failed to get current branch: ") g.repo_path
        (codes "branch" ∷ codes "--show-current" ∷ []) (g, w))
      (λ out. return (text_eq (trim_space out) g.branch_name))

-- `git add .` and `git commit`, if there is something to commit.
unfoldable pub commit_changes : {W : Type 0} → Shell W → Text → M W (Unit {0})
unfolding is_dirty
commit_changes sh message (g, w) = continue (is_dirty sh (g, w)) (λ dirty.
    if dirty
    then (do
      git sh (codes "failed to stage changes: ") g.worktree_path (codes "add" ∷ codes "." ∷ [])
      git sh (codes "failed to commit changes: ") g.worktree_path
          (codes "commit" ∷ codes "-m" ∷ message ∷ codes "--no-verify" ∷ [])
      return tt)
    else return tt)

-- A command of the executor in the worktree, whose error ends the operation.
abbrev pub command_in : {W : Type 0} → Shell W → Text → Text → List Text → M W Text
command_in sh prefix dir command = do
  r ← on_world (sh.run dir command)
  or_fail (λ e. prefix ++ e) r

-- The first sync, and a push if it fails.
abbrev pub or_push : {W : Type 0} → Shell W → Worktree → Text × Option Text → M W Text
or_push sh g (out, none) = return out
or_push sh g (out, some e) =
    command_in sh (codes "failed to push branch: ") g.worktree_path
      (codes "git" ∷ codes "push" ∷ codes "-u" ∷ codes "origin" ∷ g.branch_name ∷ [])

-- An error of the browser is logged only; `gh` is checkGHCLI.
abbrev pub open_branch_url : {W : Type 0} → Shell W → (W → Option Text) → Worktree → M W (Unit {0})
open_branch_url sh gh g (h, w) = elim (gh w) [
  | none ↦ (
    ok tt,
    (
      h,
      (sh.run g.worktree_path (codes "gh" ∷ codes "browse" ∷ codes "--branch" ∷ g.branch_name ∷ [])
          w).1,
    ),
  )
  | some e ↦ (ok tt, (h, w))
]

abbrev pub push_commits :
    {W : Type 0} → Shell W → (W → Option Text) → Bool → Worktree → M W (Unit {0})
push_commits sh gh browse g = do
  synced ← on_world (
      sh.run g.worktree_path (
        codes "gh"
        ∷ codes "repo"
        ∷ codes "sync"
        ∷ codes "--source"
        ∷ codes "-b"
        ∷ g.branch_name
        ∷ []))
  or_push sh g synced
  command_in sh (codes "failed to sync changes: ") g.worktree_path
      (codes "gh" ∷ codes "repo" ∷ codes "sync" ∷ codes "-b" ∷ g.branch_name ∷ [])
  if browse then open_branch_url sh gh g else return tt

unfoldable pub push_changes :
    {W : Type 0} → Shell W → (W → Option Text) → Text → Bool → M W (Unit {0})
unfolding commit_changes
push_changes sh gh message browse (g, w) = elim (gh w) [
  | some e ↦ (err e, (g, w))
  | none ↦ continue (commit_changes sh message (g, w)) (λ _. push_commits sh gh browse g)
]
