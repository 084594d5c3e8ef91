-- ===== src/Session/Git/Setup/Tests.antt =====
-- A log of commands as the world, and a list of branches.
use claude_squad_ide.Base.{◌≡◌, refl, true, false, List, [], ◌∷◌, ◌++◌, All, none, Text, codes}
use claude_squad_ide.Session.Instance.World.{Worktree, ok}
use claude_squad_ide.Session.Git.Retry.{succeeded}
use claude_squad_ide.Session.Git.Command.{Shell, missing, run_git}
use claude_squad_ide.Session.Git.Worktrees.{init_and_fetch_submodules}
use claude_squad_ide.Session.Git.Setup.{setup, cleanup}
use claude_squad_ide.Session.Git.Setup.Kept.{deletes_branch, IsKept}
use claude_squad_ide.Session.Git.Setup.Branch.{existing_branch_kept}
use claude_squad_ide.Session.Git.Branches.{search_branches}

-- Every command succeeds with no output, and is added to the log.
abbrev logged : Shell (List (List Text))
logged = record {
  is_remote = true;
  run = λ dir command log. (([], none), command ∷ log);
  attempt = λ dir command log. (succeeded [], command ∷ log);
  mkdir_all = λ dir log. (none, log);
  stat = λ path log. missing;
  read_dir = λ path log. ok (codes "README.md" ∷ []);
  dir_of = λ path. codes "/worktrees";
  join = λ a b. a ++ (codes "/" ++ b);
  quote = λ t. t;
}

abbrev HasNoDeletion : List (List Text) → Type 0
HasNoDeletion log = All (λ c. deletes_branch c ≡ false) log

logged-IsKept : IsKept logged HasNoDeletion
logged-IsKept = record {
  by_run = λ dir command log d p. (d, p);
  by_attempt = λ dir command log d p. (d, p);
  by_mkdir = λ dir log p. p;
}

abbrev on_main : Worktree
on_main = record {
  repo_path = codes "/repo";
  worktree_path = codes "/worktrees/a";
  session_name = codes "a";
  branch_name = codes "main";
  base_commit_sha = [];
  is_existing_branch = true;
  base_ref = [];
}

existing_branch_kept_example :
    HasNoDeletion (setup logged (on_main, [])).1.1 × HasNoDeletion (cleanup logged on_main []).1
existing_branch_kept_example =
    existing_branch_kept logged HasNoDeletion logged-IsKept on_main [] refl tt

-- The set-up of an existing branch records no base commit.
no_base : (setup logged (on_main, [])).1.0.base_commit_sha ≡ []
unfolding setup run_git init_and_fetch_submodules
no_base = refl

abbrev printed : Text
printed = codes "fIx\norigin/HEAD\nmaIn\nfIx\n"

printed_branches : search_branches (λ t. t) (codes "I") printed ≡ codes "fIx" ∷ codes "maIn" ∷ []
unfolding search_branches
printed_branches = refl
