-- ===== src/Session/Instance/Failures.antt =====
-- session/instance.go: what is cleaned up, and what is not, when a start or a resume fails.
use claude_squad_ide.Base.{
  if_true, if_false, ◌≡◌, ap, ◌∙◌, true, false, not, none, some, is_empty, Text, arith,
}
use claude_squad_ide.Session.Instance.World.{Env, Worktree, ok, err}
use claude_squad_ide.Session.Instance.{paused, is_paused, Instance, Error, caused, spawn_process}
use claude_squad_ide.Session.Instance.Life.{
  kill, start, resume, finish_start, start_process, choose_worktree, failed_cleanup, finish_spawn,
  use_setup, then_run, prepare_worktree, work_dir, resumed_in, resume_process, resume_checked,
  resume_worktree, current,
}

module _ {W : Type 0} (env : Env W) where
  kill_not_started : (i : Instance) (w : W) → i.started ≡ false → kill env (i, w) ≡ (none, (i, w))
  unfolding kill
  kill_not_started i w h = ground arith

  -- A new instance whose Setup fails is left to the deferred handler, and that does nothing, since
  -- the instance is not started: Start returns with the world as Setup left it, with no cleanup of
  -- the worktree.
  pub start_setup_fails :
      (i j : Instance) (w w₁ w₂ : W) (wt wt' : Worktree) (e : Text)
      → is_empty i.title ≡ false
      → choose_worktree env (i, w) ≡ (none, (j, w₁))
      → j.started ≡ false
      → j.in_place ≡ false
      → j.git_worktree ≡ some wt
      → env.setup wt w₁ ≡ (err e, (wt', w₂))
      → start env true (i, w) ≡ (some (caused e), (record j { git_worktree = some wt' }, w₂))
  unfolding start start_process
  start_setup_fails i j w w₁ w₂ wt wt' e t c s n g u =
      let j' : Instance = record j { git_worktree = some wt' } in
      let prepared =
        if_false j.in_place (none, (j, w₁)) (prepare_worktree env true j.git_worktree (j, w₁)) n
        ∙ ap (λ o. prepare_worktree env true o (j, w₁)) g
        ∙ ap (use_setup j) u in
      let processed : start_process env true (j, w₁) ≡ (some (caused e), (j', w₂)) =
        ap (λ r. then_run r (λ s. finish_spawn env true (spawn_process env (work_dir s.0) false s)))
          prepared in
      if_false (is_empty i.title) _ _ t
      ∙ ap (λ r. then_run r (λ s. finish_start env (start_process env true s))) c
      ∙ ap (finish_start env) processed
      ∙ ap (λ r. (some (caused e), r.1)) (kill_not_started j' w₂ s)

  resume_process_fails :
      (i j : Instance) (w w' : W) (wt : Worktree) (e : Error)
      → i.process_manager ≡ true
      → i.git_worktree ≡ some wt
      → spawn_process env wt.worktree_path true (i, w) ≡ (some e, (j, w'))
      → resume_process env wt (i, w) ≡ failed_cleanup e j (env.cleanup wt w')
  resume_process_fails i j w w' wt e m g l =
      if_true i.process_manager _ _ m
      ∙ ap
          (λ o.
            resumed_in env (current wt o)
              (spawn_process env (current wt o).worktree_path true (i, w)))
          g
      ∙ ap (resumed_in env wt) l

  resume_checked_fails :
      (i j : Instance) (w w' : W) (wt : Worktree) (e : Error)
      → i.process_manager ≡ true
      → i.git_worktree ≡ some wt
      → env.path_exists wt.worktree_path w ≡ true
      → spawn_process env wt.worktree_path true (i, w) ≡ (some e, (j, w'))
      → resume_checked env wt i (ok false, w) ≡ failed_cleanup e j (env.cleanup wt w')
  resume_checked_fails i j w w' wt e m g x l =
      ap (λ r. then_run r (resume_process env wt))
        (if_true (env.path_exists wt.worktree_path w) (none, (i, w)) (use_setup i (env.setup wt w))
          x)
      ∙ resume_process_fails i j w w' wt e m g l

  -- A paused instance in a worktree that exists, whose branch is not checked out elsewhere and whose
  -- process cannot be started: Resume returns an error and leaves the world as the cleanup of the
  -- worktree, the one that Kill runs, leaves it.
  pub resume_spawn_fails :
      (i j : Instance) (w w₁ w₂ : W) (wt : Worktree) (e : Error)
      → i.started ≡ true
      → i.status ≡ paused
      → i.in_place ≡ false
      → i.process_manager ≡ true
      → i.git_worktree ≡ some wt
      → env.is_branch_checked_out wt w ≡ (ok false, w₁)
      → env.path_exists wt.worktree_path w₁ ≡ true
      → spawn_process env wt.worktree_path true (i, w₁) ≡ (some e, (j, w₂))
      → resume env (i, w) ≡ failed_cleanup e j (env.cleanup wt w₂)
  unfolding resume
  resume_spawn_fails i j w w₁ w₂ wt e s p n m g b x l =
      if_false (not i.started) _ _ (ap not s)
      ∙ if_false (not (is_paused i.status)) _ _ (ap (λ t. not (is_paused t)) p)
      ∙ if_false i.in_place _ _ n
      ∙ ap (λ o. resume_worktree env o (i, w)) g
      ∙ ap (resume_checked env wt i) b
      ∙ resume_checked_fails i j w₁ w₂ wt e m g x l
