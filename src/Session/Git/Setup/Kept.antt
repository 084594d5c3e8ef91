-- ===== src/Session/Git/Setup/Kept.antt =====
-- session/git/worktree_ops.go: what stays true of the world under commands that delete no branch.
use claude_squad_ide.Base.{
  ℕ, zero, suc, ◌≡◌, refl, Bool, true, false, ◌&&◌, List, [], ◌∷◌, ◌++◌, Option, none, some, Text,
  codes, text_eq, is_empty, if_intro, split, trim_space, if◌then◌else◌,
}
use claude_squad_ide.Session.Instance.World.{Worktree, Failure, Reply, ok, err}
use claude_squad_ide.Session.Git.Retry.{Attempt, succeeded, timed_out, failed}
use claude_squad_ide.Session.Git.Command.{
  Shell, M, continue, ◌>>=◌, or_fail, git, try_git, run_git, run_with_timeout, retry_command,
  after_attempt,
}
use claude_squad_ide.Session.Git.Branches.{get_default_branch, first_remote, or_remote, is_ok}
use claude_squad_ide.Session.Git.Worktrees.{
  first_reference, local_submodule_reference, init_submodule, or_clone, init_fetch_and_verify_one,
  initialized, fetched, checked_out, init_all, init_line, list_submodules, enumerated,
  submodule_of_line, has_gitmodules, init_listed, init_and_fetch_submodules,
  submodule_fetch_attempts,
}

-- `git -C <path> branch -D <name>`
abbrev pub deletes_branch : List Text → Bool
deletes_branch (a ∷ b ∷ c ∷ d ∷ e ∷ rest) = text_eq d (codes "branch") && text_eq e (codes "-D")
deletes_branch _ = false

-- What every command but the deletion of a branch leaves true of the world.
pub record IsKept {W : Type 0} (sh : Shell W) (P : W → Type 0) : Type 0 where
  pub by_run :
      (dir : Text) (command : List Text) (w : W)
      → deletes_branch command ≡ false
      → P w
      → P (sh.run dir command w).1
  pub by_attempt :
      (dir : Text) (command : List Text) (w : W)
      → deletes_branch command ≡ false
      → P w
      → P (sh.attempt dir command w).1
  pub by_mkdir : (dir : Text) (w : W) → P w → P (sh.mkdir_all dir w).1

module _ {W : Type 0} (sh : Shell W) (P : W → Type 0) (k : IsKept sh P) where
  abbrev pub Keeps : {A : Type 0} → M W A → Type 0
  Keeps m = (s : Worktree × W) → P s.1 → P (m s).1.1

  pub keep_if : {A : Type 0} (b : Bool) (x y : A × W) → P x.1 → P y.1 → P (if b then x else y).1
  keep_if true x y p q = p
  keep_if false x y p q = q

  pub keep_continue :
      {A B : Type 0} (r : Reply A × (Worktree × W)) (f : A → M W B)
      → ((a : A) → Keeps (f a))
      → P r.1.1
      → P (continue r f).1.1
  keep_continue (ok a, s) f h p = h a s p
  keep_continue (err e, s) f h p = p

  pub keep_run_git :
      (path : Text) (args : List Text) (w : W)
      → deletes_branch (codes "git" ∷ codes "-C" ∷ path ∷ args) ≡ false
      → P w
      → P (run_git sh path args w).1
  unfolding run_git
  keep_run_git path args w d p = k.by_run [] _ w d p

  pub keep_or_fail : (wrap : Text → Text) (r : Text × Option Text) → Keeps (or_fail wrap r)
  keep_or_fail wrap (out, none) s p = p
  keep_or_fail wrap (out, some e) s p = p

  pub keep_git :
      (prefix path : Text) (args : List Text)
      → deletes_branch (codes "git" ∷ codes "-C" ∷ path ∷ args) ≡ false
      → Keeps (git sh prefix path args)
  keep_git prefix path args d (g, w) p =
      keep_or_fail (λ e. prefix ++ e) _ (g, (run_git sh path args w).1)
        (keep_run_git path args w d p)

  pub keep_after_attempt :
      (a : Attempt × W) (next : Option Text × W) → P a.1 → P next.1 → P (after_attempt a next).1
  keep_after_attempt (succeeded out, w) next p q = p
  keep_after_attempt (timed_out out, w) next p q = q
  keep_after_attempt (failed out e, w) next p q = p

  pub keep_retry :
      (path : Text) (command : List Text) (n : ℕ) (last : Option Text) (w : W)
      → deletes_branch command ≡ false
      → P w
      → P (retry_command sh path command n last w).1
  unfolding retry_command
  keep_retry path command zero last w d p = p
  keep_retry path command (suc n) last w d p =
      let q = k.by_attempt path command w d p in
      keep_after_attempt (sh.attempt path command w) _ q
        (keep_retry path command n (some (codes "command timed out")) _ d q)

  pub keep_timeout :
      (path : Text) (n : ℕ) (command : List Text) (w : W)
      → deletes_branch command ≡ false
      → P w
      → P (run_with_timeout sh path n command w).1
  unfolding run_with_timeout
  keep_timeout path n command w d p =
      keep_if sh.is_remote _ _ (k.by_run path command w d p) (keep_retry path command _ none w d p)

  pub keep_first_remote :
      (repo : Text) (cs : List Text) (w : W) → P w → P (first_remote sh repo cs w).1
  unfolding first_remote
  keep_first_remote repo [] w p = p
  keep_first_remote repo (c ∷ cs) w p =
      let command =
        codes "git"
        ∷ codes "show-ref"
        ∷ codes "--verify"
        ∷ (codes "refs/remotes/origin/" ++ c)
        ∷ [] in
      let q = k.by_run repo command w refl p in
      keep_if (is_ok (sh.run repo command w).0) _ _ q (keep_first_remote repo cs _ q)

  pub keep_or_remote :
      (o : Option Text) (w : W) (f : W → Text × W)
      → P w
      → ((w : W) → P w → P (f w).1)
      → P (or_remote o w f).1
  keep_or_remote none w f p h = h w p
  keep_or_remote (some name) w f p h = p

  pub keep_default_branch : (repo : Text) (w : W) → P w → P (get_default_branch sh repo w).1
  unfolding get_default_branch
  keep_default_branch repo w p =
      keep_or_remote _ _ _ (k.by_run repo _ w refl p)
        (λ w' q. keep_first_remote repo (codes "main" ∷ codes "master" ∷ []) w' q)

  pub keep_first_reference : (cs : List Text) (w : W) → P w → P (first_reference sh cs w).1
  unfolding first_reference
  keep_first_reference [] w p = p
  keep_first_reference (c ∷ cs) w p =
      let command = codes "test" ∷ codes "-d" ∷ sh.join c (codes "objects") ∷ [] in
      let q = k.by_run [] command w refl p in
      keep_if (is_ok (sh.run [] command w).0) _ _ q (keep_first_reference cs _ q)

  pub keep_reference :
      (g : Worktree) (sm : Text) (w : W) → P w → P (local_submodule_reference sh g sm w).1
  unfolding local_submodule_reference
  keep_reference g sm w p =
      keep_if (is_empty g.repo_path) _ _ p
        (keep_first_reference _ _ (keep_run_git g.repo_path _ w refl p))

  pub keep_or_clone :
      (g : Worktree) (sm : Text) (r : Option Text × W) → P r.1 → P (or_clone sh g sm r).1
  keep_or_clone g sm (none, w) p = p
  keep_or_clone g sm (some e, w) p = keep_timeout g.worktree_path 1 _ w refl p

  pub keep_init : (g : Worktree) (sm : Text) (w : W) → P w → P (init_submodule sh g sm w).1
  unfolding init_submodule
  keep_init g sm w p =
      let q = keep_reference g sm w p in
      keep_if (is_empty (local_submodule_reference sh g sm w).0) _ _
        (keep_timeout g.worktree_path 1 _ _ refl q)
        (keep_or_clone g sm _ (keep_timeout g.worktree_path 1 _ _ refl q))

  pub keep_checked_out :
      (path sm branch : Text) (r : (Text × Option Text) × W)
      → P r.1
      → P (checked_out sh path sm branch r).1
  keep_checked_out path sm branch ((out, some e), w) p = p
  keep_checked_out path sm branch ((out, none), w) p = p

  pub keep_fetched : (path sm : Text) (r : Option Text × W) → P r.1 → P (fetched sh path sm r).1
  keep_fetched path sm (some e, w) p = p
  keep_fetched path sm (none, w) p =
      let (branch, w') = get_default_branch sh path w in
      let args = codes "checkout" ∷ (codes "origin/" ++ branch) ∷ [] in
      keep_checked_out path sm branch (run_git sh path args w')
        (keep_run_git path args w' refl (keep_default_branch path w p))

  pub keep_initialized :
      (path sm : Text) (r : Option Text × W) → P r.1 → P (initialized sh path sm r).1
  keep_initialized path sm (some e, w) p = p
  keep_initialized path sm (none, w) p =
      keep_fetched path sm _ (keep_timeout path submodule_fetch_attempts _ w refl p)

  pub keep_one :
      (g : Worktree) (sm : Text) (w : W) → P w → P (init_fetch_and_verify_one sh g sm w).1
  unfolding init_fetch_and_verify_one
  keep_one g sm w p = keep_initialized _ sm _ (keep_init g sm w p)

  pub keep_line : (g : Worktree) (o : Option Text) (w : W) → P w → P (init_line sh g o w).1
  unfolding init_line
  keep_line g none w p = p
  keep_line g (some sm) w p = keep_one g sm w p

  pub keep_all : (g : Worktree) (ls : List Text) (w : W) → P w → P (init_all sh g ls w).1
  unfolding init_all
  keep_all g [] w p = p
  keep_all g (l ∷ ls) w p = keep_all g ls _ (keep_line g (submodule_of_line l) w p)

  pub keep_enumerated : (r : Text × Option Text) → Keeps (enumerated sh r)
  keep_enumerated (out, none) (g, w) p = keep_all g (split b'\n' (trim_space out)) w p
  keep_enumerated (out, some e) s p =
      if_intro (λ (r : Reply (List Failure) × (Worktree × W)). P r.1.1) (is_empty (trim_space out))
        _ _ (λ _. p) (λ _. p)

  pub keep_gitmodules : (g : Worktree) (w : W) → P w → P (has_gitmodules sh g w).1
  unfolding has_gitmodules
  keep_gitmodules g w p = keep_if sh.is_remote _ _ (k.by_run [] _ w refl p) p

  pub keep_listed : (g : Worktree) → Keeps (init_listed sh g)
  keep_listed g (h, w) p =
      let listed = run_git sh g.worktree_path list_submodules w in
      keep_enumerated listed.0 (h, listed.1) (keep_run_git g.worktree_path list_submodules w refl p)

  pub keep_submodules : Keeps (init_and_fetch_submodules sh)
  unfolding init_and_fetch_submodules
  keep_submodules (g, w) p =
      let q = keep_gitmodules g w p in
      if_intro (λ (m : M W (List Failure)). P (m (g, (has_gitmodules sh g w).1)).1.1)
        (has_gitmodules sh g w).0 _ _ (λ _. keep_listed g _ q) (λ _. q)

  pub keep_bind :
      {A B : Type 0} (m : M W A) (f : A → M W B)
      → Keeps m
      → ((a : A) → Keeps (f a))
      → Keeps (m >>= f)
  keep_bind m f h h' s p = keep_continue (m s) f h' (h s p)

  pub keep_try :
      (path : Text) (args : List Text)
      → deletes_branch (codes "git" ∷ codes "-C" ∷ path ∷ args) ≡ false
      → Keeps (try_git sh path args)
  keep_try path args d (g, w) p = keep_run_git path args w d p
