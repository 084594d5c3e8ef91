-- ===== src/Session/Git/Tests.antt =====
-- Concrete names, commands and diffs.
use claude_squad_ide.Base.{
  ℕ, zero, suc, ◌≡◌, ◌+◌, refl, itoa, Bool, true, false, [], ◌∷◌, none, some, Text, codes, All, map,
  text_eq, leb, ◌&&◌, ◌||◌, if◌then◌else◌, arith, ap, ◌∙◌, max, ◌<◌,
}
use claude_squad_ide.Session.Git.Names.{is_safe, deduplicate_branch_name, sanitize_branch_name}
use claude_squad_ide.Session.Git.Names.Sanitized.{IsBranchName, sanitize_branch_name-IsBranchName}
use claude_squad_ide.Session.Git.Shell.{outside, read_word, shell_escape, read_word-shell_escape}
use claude_squad_ide.Session.Git.Retry.{
  Attempt, succeeded, timed_out, local, timeout, outcome, is_timeout, run_command_with_timeout,
  run_command_with_timeout_lem,
}
use claude_squad_ide.Session.Git.DiffFiles.{Repo}

-- The lower case of ASCII.
abbrev lower : ℕ → ℕ
lower c = if leb b'A' c && leb c b'Z' then c + 32 else c

abbrev to_lower : Text → Text
to_lower s = map lower s

lower-safe : (t : Text) → All (λ c. is_safe c ≡ true) t → to_lower t ≡ t
lower-safe [] a = refl
lower-safe (c ∷ t) a =
    let e : lower c ≡ c = ground (arith, a.0) in
    ap (λ x. x ∷ to_lower t) e ∙ ap (λ x. c ∷ x) (lower-safe t a.1)

sanitize_branch_name-IsBranchName_example :
    IsBranchName (sanitize_branch_name to_lower (codes "A (B)"))
sanitize_branch_name-IsBranchName_example =
    sanitize_branch_name-IsBranchName to_lower (codes "A (B)")

-- The name and its first numbered form are taken.
abbrev taken : Text → Bool
taken r = text_eq r (codes "refs/heads/fix") || text_eq r (codes "refs/remotes/origin/fix-1")

second_free : deduplicate_branch_name taken (codes "fix") ≡ codes "fix-2"
unfolding deduplicate_branch_name itoa
second_free = refl

read_word-shell_escape_example :
    read_word outside (shell_escape (codes "/home/o'brien/$x y"))
    ≡ some (codes "/home/o'brien/$x y")
read_word-shell_escape_example = read_word-shell_escape (codes "/home/o'brien/$x y")

-- The first attempt times out and the second succeeds.
abbrev slow_once : ℕ → Attempt
slow_once zero = timed_out []
slow_once (suc i) = succeeded (codes "done")

run_command_with_timeout_lem_example :
    ((k : ℕ)
      → k < max 1 3
      → ((j : ℕ) → j < k → is_timeout (slow_once j) ≡ true)
      → is_timeout (slow_once k) ≡ false
      → run_command_with_timeout local 3 slow_once ≡ outcome (slow_once k))
    × (((j : ℕ) → j < max 1 3 → is_timeout (slow_once j) ≡ true)
        → run_command_with_timeout local 3 slow_once ≡ ([], some timeout))
run_command_with_timeout_lem_example = run_command_with_timeout_lem slow_once 3

-- One file is renamed, one is added.
abbrev changed : Repo
changed = record {
  name_status = λ base. some (codes "R100\told.go\tnew.go\nA\tadded.go\n");
  show = λ base path. if text_eq path (codes "old.go") then some (codes "text") else none;
  read_file = λ path. some (codes "text");
}
