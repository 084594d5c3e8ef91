-- ===== src/Session/Git/Worktrees/Verified.antt =====
-- session/git/worktree_ops.go: a submodule that is reported as set up has files.
use claude_squad_ide.Base.{
  ◌≡◌, refl, true, false, ◌||◌, List, [], ◌∷◌, ◌++◌, Option, none, some, Text, codes, contains,
  has_prefix, if_intro, arith,
}
use claude_squad_ide.Session.Instance.World.{Worktree, Failure, Reply, ok, err}
use claude_squad_ide.Session.Git.Command.{Shell, run_git}
use claude_squad_ide.Session.Git.Branches.{get_default_branch}
use claude_squad_ide.Session.Git.Worktrees.{
  verify, only_git, checked_out, fetched, initialized, init_fetch_and_verify_one, retry_submodule,
}

abbrev pub HasFiles : Reply (List Text) → Type 0
HasFiles r = (es : List Text) × (r ≡ ok es) × (only_git es ≡ false)

verify-HasFiles : (sm : Text) (r : Reply (List Text)) → verify sm r ≡ none → HasFiles r
verify-HasFiles sm (err e) n = absurd (ground (arith, n))
verify-HasFiles sm (ok es) n =
    if_intro (λ (o : Option Failure). o ≡ none → HasFiles (ok es)) (only_git es) _ _
      (λ _ m. absurd (ground (arith, m))) (λ f m. (es, refl, f)) n

module _ {W : Type 0} (sh : Shell W) (path sm : Text) where
  abbrev IsVerified : Option Failure × W → Type 0
  IsVerified (o, w) = o ≡ none → HasFiles (sh.read_dir path w)

  checked_out-IsVerified :
      (branch : Text) (r : (Text × Option Text) × W) → IsVerified (checked_out sh path sm branch r)
  checked_out-IsVerified branch ((out, some e), w) n = absurd (ground (arith, n))
  checked_out-IsVerified branch ((out, none), w) n = verify-HasFiles sm (sh.read_dir path w) n

  fetched-IsVerified : (r : Option Text × W) → IsVerified (fetched sh path sm r)
  fetched-IsVerified (some e, w) n = absurd (ground (arith, n))
  fetched-IsVerified (none, w) n =
      let (branch, w') = get_default_branch sh path w in
      checked_out-IsVerified branch
        (run_git sh path (codes "checkout" ∷ (codes "origin/" ++ branch) ∷ []) w') n

  initialized-IsVerified : (r : Option Text × W) → IsVerified (initialized sh path sm r)
  initialized-IsVerified (some e, w) n = absurd (ground (arith, n))
  initialized-IsVerified (none, w) n = fetched-IsVerified _ n

-- RetrySubmodule never touches the world for a name with `..` in it or a slash before it, and
-- answers with a failure; if it answers with none, the submodule's directory can be read afterwards
-- and has an entry besides `.git`.
pub retry_submodule_lem :
    {W : Type 0} (sh : Shell W) (g : Worktree) (name : Text) (w : W)
    → (((contains name (codes "..") || has_prefix name (codes "/")) ≡ true)
        → ((f : Failure) × (retry_submodule sh g name w ≡ (some f, w))))
      × (((retry_submodule sh g name w).0 ≡ none)
          → HasFiles (sh.read_dir (sh.join g.worktree_path name) (retry_submodule sh g name w).1))
unfolding retry_submodule init_fetch_and_verify_one
retry_submodule_lem {W = W} sh g name w =
    if_intro
      (λ (r : Option Failure × W).
        (((contains name (codes "..") || has_prefix name (codes "/")) ≡ true)
          → ((f : Failure) × (r ≡ (some f, w))))
        × ((r.0 ≡ none) → HasFiles (sh.read_dir (sh.join g.worktree_path name) r.1)))
      (contains name (codes "..") || has_prefix name (codes "/")) _ _
      (λ _. (λ _. (_, refl), λ n. absurd (ground (arith, n))))
      (λ f. (λ t. absurd (ground (arith, f, t)), initialized-IsVerified sh _ name _))
