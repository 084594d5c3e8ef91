-- ===== src/Session/Git/Setup/Branch.antt =====
-- session/git/worktree_ops.go: a branch that was there before the session is not deleted.
use claude_squad_ide.Base.{
  ◌≡◌, refl, sym, subst, if_true, arith, Bool, true, false, not, List, [], ◌∷◌, ◌++◌, Option, none,
  some, Text, codes,
}
use claude_squad_ide.Session.Instance.World.{Worktree}
use claude_squad_ide.Session.Git.Command.{Shell, ◌>>=◌, or_fail, git, run_git, on_world}
use claude_squad_ide.Session.Git.Worktrees.{init_and_fetch_submodules}
use claude_squad_ide.Session.Git.Setup.{
  setup, setup_branch, setup_from_existing_branch, make_parent, add_existing, add_tracking,
  show_ref, remove_worktree, cleanup, find_worktree, run_if, errors_of, branch_errors,
}
use claude_squad_ide.Session.Git.Setup.Kept.{
  deletes_branch, IsKept, Keeps, keep_if, keep_run_git, keep_or_fail, keep_git, keep_submodules,
  keep_bind, keep_try,
}

module _ {W : Type 0} (sh : Shell W) (P : W → Type 0) (k : IsKept sh P) where
  keep_add :
      (prefix path : Text) (args : List Text)
      → deletes_branch (codes "git" ∷ codes "-C" ∷ path ∷ args) ≡ false
      → Keeps sh P k (git sh prefix path args >>= λ _. init_and_fetch_submodules sh)
  keep_add prefix path args d =
      keep_bind sh P k (git sh prefix path args) (λ _. init_and_fetch_submodules sh)
        (keep_git sh P k prefix path args d) (λ _. keep_submodules sh P k)

  keep_tracking : (g : Worktree) (r : Text × Option Text) → Keeps sh P k (add_tracking sh g r)
  keep_tracking g (out, some e) s p = p
  keep_tracking g (out, none) s p =
      keep_add
        (codes "failed to create worktree from remote branch " ++ (g.branch_name ++ codes ": "))
        g.repo_path
        (codes "worktree"
          ∷ codes "add"
          ∷ codes "-b"
          ∷ g.branch_name
          ∷ g.worktree_path
          ∷ (codes "origin/" ++ g.branch_name)
          ∷ [])
        refl s p

  keep_show_ref : (g : Worktree) (ref : Text) → Keeps sh P k (show_ref sh g ref)
  keep_show_ref g ref =
      keep_try sh P k g.repo_path
        (codes "show-ref" ∷ codes "--verify" ∷ (ref ++ g.branch_name) ∷ []) refl

  keep_add_existing : (g : Worktree) (r : Text × Option Text) → Keeps sh P k (add_existing sh g r)
  keep_add_existing g (out, some e) s p =
      keep_bind sh P k (show_ref sh g (codes "refs/remotes/origin/")) (add_tracking sh g)
        (keep_show_ref g (codes "refs/remotes/origin/")) (keep_tracking g) s p
  keep_add_existing g (out, none) s p =
      keep_add (codes "failed to create worktree from branch " ++ (g.branch_name ++ codes ": "))
        g.repo_path (codes "worktree" ∷ codes "add" ∷ g.worktree_path ∷ g.branch_name ∷ []) refl s p

  keep_setup_existing : (g : Worktree) → Keeps sh P k (setup_from_existing_branch sh g)
  unfolding setup_from_existing_branch
  keep_setup_existing g =
      keep_bind sh P k (remove_worktree sh g)
        (λ _. show_ref sh g (codes "refs/heads/") >>= add_existing sh g)
        (keep_try sh P k g.repo_path
          (codes "worktree" ∷ codes "remove" ∷ codes "-f" ∷ g.worktree_path ∷ []) refl)
        (λ _.
          keep_bind sh P k (show_ref sh g (codes "refs/heads/")) (add_existing sh g)
            (keep_show_ref g (codes "refs/heads/")) (keep_add_existing g))

  keep_parent : (g : Worktree) (w : W) → P w → P (make_parent sh g w).1
  unfolding make_parent
  keep_parent g w p = keep_if sh P k sh.is_remote _ _ (k.by_run [] _ w refl p) (k.by_mkdir _ w p)

  keep_setup_branch :
      (g : Worktree) → g.is_existing_branch ≡ true → Keeps sh P k (setup_branch sh g)
  keep_setup_branch g e =
      subst (Keeps sh P k) (sym (if_true g.is_existing_branch _ _ e)) (keep_setup_existing g)

  keep_found : (g : Worktree) (w : W) → P w → P (find_worktree sh g w).1
  unfolding find_worktree
  keep_found g w p = keep_if sh P k sh.is_remote _ _ (k.by_run [] _ w refl p) p

  keep_run_if :
      (b : Bool) (f : W → (Text × Option Text) × W) (errors : Text × Option Text → List Text)
      (w : W)
      → (b ≡ true → P (f w).1)
      → P w
      → P (run_if b f errors w).1
  keep_run_if true f errors w h p = h refl
  keep_run_if false f errors w h p = p

  -- Setting up a worktree for a branch that was there before the session leaves true of the world
  -- what every command leaves true but a deletion of a branch, whatever git answers; so does its
  -- cleanup.
  pub existing_branch_kept :
      (g : Worktree) (w : W)
      → g.is_existing_branch ≡ true
      → P w
      → P (setup sh (g, w)).1.1 × P (cleanup sh g w).1
  unfolding setup cleanup
  existing_branch_kept g w e p =
      let remove = codes "worktree" ∷ codes "remove" ∷ codes "-f" ∷ g.worktree_path ∷ [] in
      let w₀ = (find_worktree sh g w).1 in
      let w₁ = (run_if (find_worktree sh g w).0.0 (run_git sh g.repo_path remove) errors_of w₀).1 in
      let q₀ = keep_found g w p in
      let q₁ =
        keep_run_if (find_worktree sh g w).0.0 (run_git sh g.repo_path remove) errors_of w₀
          (λ _. keep_run_git sh P k g.repo_path remove w₀ refl q₀) q₀ in
      (
        keep_bind sh P k (on_world (make_parent sh g) >>= or_fail (λ e. e)) (λ _. setup_branch sh g)
            (keep_bind sh P k (on_world (make_parent sh g)) (or_fail (λ e. e))
              (λ (h, w) p. keep_parent g w p) (λ r. keep_or_fail sh P k _ r))
            (λ _. keep_setup_branch g e) (g, w) p,
        keep_run_git sh P k g.repo_path (codes "worktree" ∷ codes "prune" ∷ []) _ refl (
            keep_run_if (not g.is_existing_branch)
              (run_git sh g.repo_path (codes "branch" ∷ codes "-D" ∷ g.branch_name ∷ []))
              (branch_errors g.branch_name) w₁ (λ n. absurd (ground arith)) q₁),
      )
