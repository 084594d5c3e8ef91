-- ===== src/Session/Instance/Lifecycle.antt =====
-- session/instance.go: the state of an instance through its life.
use claude_squad_ide.Base.{
  ◌≡◌, refl, ◌∙◌, Bool, true, false, not, List, [], Option, none, some, is_empty, Text, if_intro,
  if◌then◌else◌,
}
use claude_squad_ide.Session.Instance.World.{Env, Worktree, Failure, Reply, ok, err}
use claude_squad_ide.Session.Instance.{
  Status, running, ready, loading, paused, is_paused, Instance, Error, clean_orphans, spawn_process,
}
use claude_squad_ide.Session.Instance.Keeps.{is_empty-nil, spawn_process-keeps}
use claude_squad_ide.Session.Instance.Life.{
  resumed, failed_cleanup, resumed_in, resume_process, current, use_setup, then_run, resume_checked,
  resume_worktree, in_place_killed, pause, resume,
}

not-false : (b : Bool) → not b ≡ false → b ≡ true
not-false true h = refl
not-false false h = cc

is_paused-paused : (s : Status) → is_paused s ≡ true → s ≡ paused
is_paused-paused running h = cc
is_paused-paused ready h = cc
is_paused-paused loading h = cc
is_paused-paused paused h = refl

module _ {W : Type 0} (env : Env W) where
  -- Pausing a started instance that is not paused and has a process manager, in a worktree, always
  -- succeeds, also if the process cannot be killed. The instance is then paused with no process,
  -- and keeps its worktree; the world has seen the kill of the process, if there was one, and the
  -- end of the orphans of the worktree, and no cleanup.
  pub pause_worktree :
      (i : Instance) (w : W)
      → i.started ≡ true
      → is_paused i.status ≡ false
      → i.process_manager ≡ true
      → i.in_place ≡ false
      → pause env (i, w) ≡ (
        none,
        (
          record i { process_id = []; status = paused },
          clean_orphans env i.git_worktree
              (if is_empty i.process_id then w else (env.kill i.process_id w).1),
        ),
      )
  unfolding pause
  pause_worktree i w s p m n = rw (s, p, m, n) refl

  -- What Pause may answer: with the nil error the instance is paused and has no process; with any
  -- other it is exactly as it was.
  abbrev pub PauseOutcome : Instance → Option Error × (Instance × W) → Type 0
  PauseOutcome i (none, (j, w)) =
      (j.status ≡ paused)
      × (j.process_id ≡ [])
      × (j.git_worktree ≡ i.git_worktree)
      × (j.started ≡ i.started)
  PauseOutcome i (some e, (j, w)) = j ≡ i

  in_place_killed-outcome :
      (i : Instance) (r : Option Text × W) → PauseOutcome i (in_place_killed i r)
  in_place_killed-outcome i (some e, w) = refl
  in_place_killed-outcome i (none, w) = (refl, refl, refl, refl)

  -- Whatever the instance and its world, a Pause that returns the nil error leaves the instance
  -- paused, with no process, and with its worktree; one that returns another error changes nothing
  -- of the instance.
  pub pause_outcome : (i : Instance) (w : W) → PauseOutcome i (pause env (i, w))
  unfolding pause
  pause_outcome i w =
      if_intro (PauseOutcome i) (not i.started) _ _ (λ _. refl)
        λ _.
          if_intro (PauseOutcome i) (is_paused i.status) _ _ (λ _. refl)
            λ _.
              if_intro (PauseOutcome i) (not i.process_manager) _ _ (λ _. refl)
                λ _.
                  if_intro (PauseOutcome i) i.in_place _ _
                    (λ _.
                      if_intro (PauseOutcome i) (is_empty i.process_id) _ _
                        (λ e. (refl, is_empty-nil i.process_id e, refl, refl))
                        (λ _. in_place_killed-outcome i (env.kill i.process_id w)))
                    (λ _. (refl, refl, refl, refl))

  -- What Resume may answer: with the nil error the instance was started and paused, and runs now;
  -- with any other its status is as before. It stays started or not.
  abbrev pub ResumeOutcome : Instance → Option Error × (Instance × W) → Type 0
  ResumeOutcome i (none, (j, w)) =
      (i.status ≡ paused) × (i.started ≡ true) × (j.status ≡ running) × (j.started ≡ true)
  ResumeOutcome i (some e, (j, w)) = (j.status ≡ i.status) × (j.started ≡ i.started)

  module _ (i : Instance) (p : i.status ≡ paused) (s : i.started ≡ true) where
    resumed-outcome :
        (r : Option Error × (Instance × W))
        → r.1.0.status ≡ i.status
        → r.1.0.started ≡ i.started
        → ResumeOutcome i (resumed r)
    resumed-outcome (some e, (j, w)) h k = (h, k)
    resumed-outcome (none, (j, w)) h k = (p, s, refl, k ∙ s)

    failed_cleanup-outcome :
        (e : Error) (j : Instance) (c : Option Text × W)
        → j.status ≡ i.status
        → j.started ≡ i.started
        → ResumeOutcome i (failed_cleanup e j c)
    failed_cleanup-outcome e j (none, w) h k = (h, k)
    failed_cleanup-outcome e j (some c, w) h k = (h, k)

    resumed_in-outcome :
        (wt : Worktree) (r : Option Error × (Instance × W))
        → r.1.0.status ≡ i.status
        → r.1.0.started ≡ i.started
        → ResumeOutcome i (resumed_in env wt r)
    resumed_in-outcome wt (some e, (j, w)) h k = failed_cleanup-outcome e j (env.cleanup wt w) h k
    resumed_in-outcome wt (none, (j, w)) h k = (p, s, refl, k ∙ s)

    resume_process-outcome :
        (wt : Worktree) (j : Instance) (w : W)
        → j.status ≡ i.status
        → j.started ≡ i.started
        → ResumeOutcome i (resume_process env wt (j, w))
    resume_process-outcome wt j w h k =
        let keeps = spawn_process-keeps env (current wt j.git_worktree).worktree_path true j w in
        if_intro (ResumeOutcome i) j.process_manager _ _
          (λ _.
            resumed_in-outcome (current wt j.git_worktree)
              (spawn_process env (current wt j.git_worktree).worktree_path true (j, w))
              (keeps.same_status ∙ h) (keeps.same_started ∙ k))
          (λ _. (h, k))

    use_setup-outcome :
        (wt : Worktree) (r : Reply (List Failure) × (Worktree × W))
        → ResumeOutcome i (then_run (use_setup i r) (resume_process env wt))
    use_setup-outcome wt (err e, (wt', w)) = (refl, refl)
    use_setup-outcome wt (ok fs, (wt', w)) =
        resume_process-outcome wt (record i { git_worktree = some wt'; submodule_failures = fs }) w
          refl refl

    resume_checked-outcome :
        (wt : Worktree) (r : Reply Bool × W) → ResumeOutcome i (resume_checked env wt i r)
    resume_checked-outcome wt (err e, w) = (refl, refl)
    resume_checked-outcome wt (ok true, w) = (refl, refl)
    resume_checked-outcome wt (ok false, w) =
        if_intro (λ r. ResumeOutcome i (then_run r (resume_process env wt)))
          (env.path_exists wt.worktree_path w) _ _ (λ _. resume_process-outcome wt i w refl refl)
          (λ _. use_setup-outcome wt (env.setup wt w))

    resume_worktree-outcome :
        (o : Option Worktree) (w : W) → ResumeOutcome i (resume_worktree env o (i, w))
    resume_worktree-outcome none w = (refl, refl)
    resume_worktree-outcome (some wt) w = resume_checked-outcome wt (env.is_branch_checked_out wt w)

  -- Whatever the instance and its world, a Resume that returns the nil error found a started, paused
  -- instance and leaves it running; one that returns another error leaves its status, and whether it
  -- was started, as they were.
  pub resume_outcome : (i : Instance) (w : W) → ResumeOutcome i (resume env (i, w))
  unfolding resume
  resume_outcome i w =
      if_intro (ResumeOutcome i) (not i.started) _ _ (λ _. (refl, refl))
        λ s.
          if_intro (ResumeOutcome i) (not (is_paused i.status)) _ _ (λ _. (refl, refl))
            λ p.
              let paused_now = is_paused-paused i.status (not-false _ p) in
              let started_now = not-false _ s in
              let keeps = spawn_process-keeps env i.path true i w in
              if_intro (ResumeOutcome i) i.in_place _ _
                (λ _.
                  if_intro (ResumeOutcome i) i.process_manager _ _
                    (λ _.
                      resumed-outcome i paused_now started_now
                        (spawn_process env i.path true (i, w)) keeps.same_status keeps.same_started)
                    (λ _. (refl, refl)))
                (λ _. resume_worktree-outcome i paused_now started_now i.git_worktree w)
