-- ===== src/Session/Git/Worktrees.antt =====
-- session/git/worktree_ops.go: setting up a worktree, and removing it.
pub mod Verified
use claude_squad_ide.Base.{
  ℕ, zero, suc, ◌+◌, Bool, true, false, not, ◌&&◌, ◌||◌, List, [], ◌∷◌, ◌++◌, Option, none, some,
  Text, codes, text_eq, trim_space, contains, has_prefix, is_empty, split, if◌then◌else◌,
}
use claude_squad_ide.Session.Instance.World.{Worktree, Failure, Reply, ok, err}
use claude_squad_ide.Session.Git.Command.{
  Shell, Found, present, missing, unknown, M, continue, ◌>>=◌, ◌>>◌, return, fail, on_world,
  or_fail, git, try_git, run_git, run_with_timeout,
}
use claude_squad_ide.Session.Git.Branches.{is_ok, get_default_branch}
use claude_squad_ide.Session.Git.DiffFiles.{split_once}

abbrev pub submodule_fetch_attempts : ℕ
submodule_fetch_attempts = 2

-- `test -d <candidate>/objects`, for the candidates in turn.
unfoldable pub first_reference : {W : Type 0} → Shell W → List Text → W → Text × W
first_reference sh [] w = ([], w)
first_reference sh (c ∷ cs) w =
    let (r, w') = sh.run [] (codes "test" ∷ codes "-d" ∷ sh.join c (codes "objects") ∷ []) w in
    let rest = first_reference sh cs w' in if is_ok r then (c, w') else rest

abbrev pub common_modules : {W : Type 0} → Shell W → Text → Text × Option Text → List Text
common_modules sh sm (out, some e) = []
common_modules sh sm (out, none) =
    if is_empty (trim_space out)
    then []
    else sh.join (sh.join (trim_space out) (codes "modules")) sm ∷ []

unfoldable pub local_submodule_reference : {W : Type 0} → Shell W → Worktree → Text → W → Text × W
unfolding first_reference
local_submodule_reference sh g sm w =
    let (r, w') =
      run_git sh g.repo_path
        (codes "rev-parse" ∷ codes "--path-format=absolute" ∷ codes "--git-common-dir" ∷ []) w in
    if is_empty g.repo_path
    then ([], w)
    else first_reference sh
        (common_modules sh sm r ++ sh.join (sh.join g.repo_path sm) (codes ".git") ∷ []) w'

abbrev pub update_command : List Text → Text → List Text
update_command options sm =
    codes "git"
    ∷ codes "submodule"
    ∷ codes "update"
    ∷ codes "--init"
    ∷ (options ++ codes "--" ∷ sm ∷ [])

abbrev pub or_clone : {W : Type 0} → Shell W → Worktree → Text → Option Text × W → Option Text × W
or_clone sh g sm (none, w) = (none, w)
or_clone sh g sm (some e, w) = run_with_timeout sh g.worktree_path 1 (update_command [] sm) w

unfoldable pub init_submodule : {W : Type 0} → Shell W → Worktree → Text → W → Option Text × W
unfolding local_submodule_reference
init_submodule sh g sm w =
    let (ref, w') = local_submodule_reference sh g sm w in
    if is_empty ref
    then run_with_timeout sh g.worktree_path 1 (update_command [] sm) w'
    else or_clone sh g sm (
        run_with_timeout sh g.worktree_path 1
          (update_command (codes "--reference" ∷ ref ∷ codes "--dissociate" ∷ []) sm) w')

-- Whether a directory has nothing but `.git`.
unfoldable pub only_git : List Text → Bool
only_git [] = true
only_git (e ∷ es) = if text_eq e (codes ".git") then only_git es else false

abbrev pub failure : Text → Text → Text → Failure
failure sm stage message = record { name = sm; stage = stage; message = message }

-- The stages of one submodule: `none` is success.
abbrev pub verify : Text → Reply (List Text) → Option Failure
verify sm (err e) = some (failure sm (codes "verify") (codes "verify directory: " ++ e))
verify sm (ok es) =
    if only_git es
    then some (
        failure sm (codes "verify")
          (codes "submodule directory " ++ (sm ++ codes " is empty after init+fetch+checkout")))
    else none

abbrev pub checked_out :
    {W : Type 0} → Shell W → Text → Text → Text → (Text × Option Text) × W → Option Failure × W
checked_out sh path sm branch ((out, some e), w) = (
  some (failure sm (codes "fetch") (codes "checkout origin/" ++ (branch ++ (codes ": " ++ e)))),
  w,
)
checked_out sh path sm branch ((out, none), w) = (verify sm (sh.read_dir path w), w)

abbrev pub checkout : {W : Type 0} → Shell W → Text → Text → Text × W → Option Failure × W
checkout sh path sm (branch, w) =
    checked_out sh path sm branch
      (run_git sh path (codes "checkout" ∷ (codes "origin/" ++ branch) ∷ []) w)

abbrev pub fetched : {W : Type 0} → Shell W → Text → Text → Option Text × W → Option Failure × W
fetched sh path sm (some e, w) = (some (failure sm (codes "fetch") e), w)
fetched sh path sm (none, w) = checkout sh path sm (get_default_branch sh path w)

abbrev pub initialized : {W : Type 0} → Shell W → Text → Text → Option Text × W → Option Failure × W
initialized sh path sm (some e, w) = (some (failure sm (codes "init") e), w)
initialized sh path sm (none, w) = fetched sh path sm (
    run_with_timeout sh path submodule_fetch_attempts
      (codes "git" ∷ codes "fetch" ∷ codes "origin" ∷ []) w)

-- `initFetchAndVerifyOne`
unfoldable pub init_fetch_and_verify_one :
    {W : Type 0} → Shell W → Worktree → Text → W → Option Failure × W
unfolding init_submodule
init_fetch_and_verify_one sh g sm w =
    initialized sh (sh.join g.worktree_path sm) sm (init_submodule sh g sm w)

unfoldable pub retry_submodule : {W : Type 0} → Shell W → Worktree → Text → W → Option Failure × W
unfolding init_fetch_and_verify_one
retry_submodule sh g name w =
    if contains name (codes "..") || has_prefix name (codes "/")
    then (some (failure name (codes "init") (codes "invalid submodule name " ++ sh.quote name)), w)
    else init_fetch_and_verify_one sh g name w

-- The path of a line `submodule.<name>.path <path>`; `none` is a line that is passed over.
abbrev pub path_part : Option (Text × Text) → Option Text
path_part none = none
path_part (some (key, path)) = if is_empty (trim_space path) then none else some (trim_space path)

abbrev pub submodule_of_line : Text → Option Text
submodule_of_line line = path_part (split_once b' ' (trim_space line))

abbrev pub add_failure : Option Failure → List Failure → List Failure
add_failure none fs = fs
add_failure (some f) fs = f ∷ fs

-- A line that names no submodule is passed over.
unfoldable pub init_line : {W : Type 0} → Shell W → Worktree → Option Text → W → Option Failure × W
unfolding init_fetch_and_verify_one
init_line sh g none w = (none, w)
init_line sh g (some sm) w = init_fetch_and_verify_one sh g sm w

-- The submodules of the lines, one after the other.
unfoldable pub init_all : {W : Type 0} → Shell W → Worktree → List Text → W → List Failure × W
unfolding init_line
init_all sh g [] w = ([], w)
init_all sh g (l ∷ ls) w =
    let (f, w') = init_line sh g (submodule_of_line l) w in
    (add_failure f (init_all sh g ls w').0, (init_all sh g ls w').1)

abbrev pub enumerated : {W : Type 0} → Shell W → Text × Option Text → M W (List Failure)
enumerated sh (out, none) (g, w) =
    let (fs, w') = init_all sh g (split b'\n' (trim_space out)) w in (ok fs, (g, w'))
enumerated sh (out, some e) s =
    if is_empty (trim_space out)
    then (ok [], s)
    else (err (codes "submodule enumeration via git config: " ++ e), s)

-- Whether `.gitmodules` is there; an unknown state of a local file counts as there.
abbrev pub is_not_missing : Found → Bool
is_not_missing missing = false
is_not_missing present = true
is_not_missing (unknown e) = true

unfoldable pub has_gitmodules : {W : Type 0} → Shell W → Worktree → W → Bool × W
has_gitmodules sh g w =
    let (r, w') =
      sh.run [] (codes "test" ∷ codes "-f" ∷ (g.worktree_path ++ codes "/.gitmodules") ∷ []) w in
    if sh.is_remote
    then (is_ok r, w')
    else (is_not_missing (sh.stat (sh.join g.worktree_path (codes ".gitmodules")) w), w)

abbrev pub list_submodules : List Text
list_submodules =
    codes "config"
    ∷ codes "-f"
    ∷ codes ".gitmodules"
    ∷ codes "--get-regexp"
    ∷ codes "^submodule\\..*\\.path$"
    ∷ []

abbrev pub init_listed : {W : Type 0} → Shell W → Worktree → M W (List Failure)
init_listed sh g = do listed ← try_git sh g.worktree_path list_submodules; enumerated sh listed

-- `runSubmoduleInit` and `initAndFetchSubmodules`
unfoldable pub init_and_fetch_submodules : {W : Type 0} → Shell W → M W (List Failure)
unfolding has_gitmodules init_all
init_and_fetch_submodules sh (g, w) =
    continue (on_world (has_gitmodules sh g) (g, w))
      (λ there. if there then init_listed sh g else return [])
