-- ===== src/Session/Git/Command.antt =====
-- session/git/executor.go, executor_timeout.go and worktree_git.go: how git is run for a worktree,
-- as a monad over the worktree's record and the world.
use claude_squad_ide.Base.{
  ℕ, zero, suc, Bool, List, [], ◌∷◌, ◌++◌, Option, none, some, Text, codes, ltb, if◌then◌else◌,
}
use claude_squad_ide.Session.Instance.World.{Worktree, Reply, ok, err}
use claude_squad_ide.Session.Git.Retry.{Attempt, succeeded, timed_out, failed}

pub data Found : Type 0 where
  present missing : Found
  unknown : Text → Found

-- The executor of a worktree, and the calls of the operating system beside it.
pub record Shell (W : Type 0) : Type 0 where
  -- Whether it is a RemoteExecutor.
  pub is_remote : Bool
  -- `Run(dir, name, args...)`: the output and the error, if any. The list starts with the name.
  pub run : Text → List Text → W → (Text × Option Text) × W
  -- `runOneAttempt`, for the local executor.
  pub attempt : Text → List Text → W → Attempt × W
  pub mkdir_all : Text → W → Option Text × W
  pub stat : Text → W → Found
  pub read_dir : Text → W → Reply (List Text)
  -- `filepath.Dir` and `filepath.Join`.
  pub dir_of : Text → Text
  pub join : Text → Text → Text
  -- The format `%q`.
  pub quote : Text → Text

abbrev pub M : Type 0 → Type 0 → Type 0
M W A = Worktree × W → Reply A × (Worktree × W)

abbrev pub continue :
    {W A B : Type 0} → Reply A × (Worktree × W) → (A → M W B) → Reply B × (Worktree × W)
continue (ok a, s) f = f a s
continue (err e, s) f = (err e, s)

infixl 5 ◌>>=◌ ◌>>◌
abbrev pub ◌>>=◌ : {W A B : Type 0} → M W A → (A → M W B) → M W B
◌>>=◌ m f s = continue (m s) f

abbrev pub ◌>>◌ : {W A B : Type 0} → M W A → M W B → M W B
m >> k = m >>= λ _. k

abbrev pub return : {W A : Type 0} → A → M W A
return a s = (ok a, s)

abbrev pub fail : {W A : Type 0} → Text → M W A
fail e s = (err e, s)

-- A step of the world whose result is a value.
abbrev pub on_world : {W A : Type 0} → (W → A × W) → M W A
on_world f (g, w) = (ok (f w).0, (g, (f w).1))

abbrev pub or_fail : {W : Type 0} → (Text → Text) → Text × Option Text → M W Text
or_fail wrap (out, none) = return out
or_fail wrap (out, some e) = fail (wrap e)

-- The error of runGitCommand.
abbrev pub with_git_error : Text × Option Text → Text × Option Text
with_git_error (out, none) = (out, none)
with_git_error (out, some e) =
    (out, some (codes "git command failed: " ++ (out ++ (codes " (" ++ (e ++ codes ")")))))

-- `runGitCommand`, with its output also on an error.
unfoldable pub run_git : {W : Type 0} → Shell W → Text → List Text → W → (Text × Option Text) × W
run_git sh path args w =
    let (r, w') = sh.run [] (codes "git" ∷ codes "-C" ∷ path ∷ args) w in (with_git_error r, w')

-- A git command whose error ends the operation, after a prefix.
abbrev pub git : {W : Type 0} → Shell W → Text → Text → List Text → M W Text
git sh prefix path args = do r ← on_world (run_git sh path args); or_fail (λ e. prefix ++ e) r

-- A git command whose error is looked at, or passed over.
abbrev pub try_git : {W : Type 0} → Shell W → Text → List Text → M W (Text × Option Text)
try_git sh path args = on_world (run_git sh path args)

-- The loop of runCommandWithTimeout, with `n` attempts to go; the result is the error.
abbrev pub after_attempt : {W : Type 0} → Attempt × W → Option Text × W → Option Text × W
after_attempt (succeeded out, w) next = (none, w)
after_attempt (timed_out out, w) next = next
after_attempt (failed out e, w) next = (some e, w)

unfoldable pub retry_command :
    {W : Type 0} → Shell W → Text → List Text → ℕ → Option Text → W → Option Text × W
retry_command sh path command zero last w = (last, w)
retry_command sh path command (suc n) last w = after_attempt (sh.attempt path command w) (
    retry_command sh path command n (some (codes "command timed out"))
      (sh.attempt path command w).1)

-- `runCommandWithTimeout`
unfoldable pub run_with_timeout :
    {W : Type 0} → Shell W → Text → ℕ → List Text → W → Option Text × W
unfolding retry_command
run_with_timeout sh path attempts command w =
    if sh.is_remote
    then ((sh.run path command w).0.1, (sh.run path command w).1)
    else retry_command sh path command (if ltb attempts 1 then 1 else attempts) none w
