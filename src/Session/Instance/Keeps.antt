-- ===== src/Session/Instance/Keeps.antt =====
-- session/instance.go: what the start of a process leaves alone.
use claude_squad_ide.Base.{
  ◌≡◌, refl, inl, inr, Bool, true, false, ◌&&◌, List, [], ◌∷◌, Option, none, some, is_empty, Text,
  codes, arith, Bool-cases, fields, has_suffix,
}
use claude_squad_ide.Session.Instance.World.{Env, Reply, ok, err}
use claude_squad_ide.Session.Instance.{
  Instance, Error, spawn_process, launch, claude_args, started_process, spawn_program, retry_fresh,
  after_launch, resolve_program, no_conversation,
}
use claude_squad_ide.Session.Instance.Life.{resume}

-- Spawning a process leaves all of an instance but the process and the conversation.
pub record IsSameBut (i j : Instance) : Type 0 where
  pub same_title : j.title ≡ i.title
  pub same_path : j.path ≡ i.path
  pub same_status : j.status ≡ i.status
  pub same_started : j.started ≡ i.started
  pub same_worktree : j.git_worktree ≡ i.git_worktree
  pub same_place : j.in_place ≡ i.in_place
  pub same_manager : j.process_manager ≡ i.process_manager

IsSameBut-refl : (i : Instance) → IsSameBut i i
IsSameBut-refl i = ground arith

IsSameBut-trans : (i j k : Instance) → IsSameBut i j → IsSameBut j k → IsSameBut i k
IsSameBut-trans i j k a b = ground arith

pub is_empty-nil : (t : Text) → is_empty t ≡ true → t ≡ []
is_empty-nil [] h = refl
is_empty-nil (c ∷ t) h = cc

module _ {W : Type 0} (env : Env W) where
  claude_args-keeps :
      (resume : Bool) (args : List Text) (i : Instance) (w : W)
      → IsSameBut i (claude_args env resume args i w).1.0
  unfolding claude_args
  claude_args-keeps resume args i w = ground arith

  started_process-keeps :
      (c : Bool) (i j : Instance) (r : Reply Text × W)
      → IsSameBut i j
      → IsSameBut i (started_process c j r).1.0
  started_process-keeps c i j (err e, w) h = h
  started_process-keeps c i j (ok id, w) h = ground arith

  spawn_program-keeps :
      (dir : Text) (resume : Bool) (fs : List Text) (i : Instance) (w : W)
      → IsSameBut i (spawn_program env dir resume fs (i, w)).1.0
  spawn_program-keeps dir resume [] i w = IsSameBut-refl i
  spawn_program-keeps dir resume (name ∷ args) i w =
      elim (Bool-cases (has_suffix (resolve_program env i.host_id name w) (codes "claude"))) [
        | inl e ↦ rw e (started_process-keeps true i _ _ (claude_args-keeps resume args i w))
        | inr e ↦ rw e (started_process-keeps false i i _ (IsSameBut-refl i))
      ]

  launch-keeps :
      (dir : Text) (resume : Bool) (i : Instance) (w : W)
      → IsSameBut i (launch env dir resume (i, w)).1.0
  unfolding launch
  launch-keeps dir resume i w = elim (Bool-cases i.process_manager) [
    | inl e ↦ simp e (spawn_program-keeps dir resume (fields i.program) i _)
    | inr e ↦ simp e (IsSameBut-refl i)
  ]

  retry_fresh-keeps :
      (dir : Text) (i j : Instance) (r : Bool × W)
      → IsSameBut i j
      → IsSameBut i (retry_fresh env dir (j, r)).1.0
  retry_fresh-keeps dir i j (exited, w) h =
      let k : Instance = record j { claude_session_id = [] } in
      let l = launch-keeps dir false k (env.kill j.process_id w).1 in
      let m = IsSameBut-trans i k _ (ground arith) l in
      elim (Bool-cases (exited && no_conversation (env.get_content j.process_id w))) [
        | inl e ↦ rw e m
        | inr e ↦ rw e h
      ]

  after_launch-keeps :
      (dir : Text) (resume : Bool) (i : Instance) (r : (Option Error × Bool) × (Instance × W))
      → IsSameBut i r.1.0
      → IsSameBut i (after_launch env dir resume r).1.0
  after_launch-keeps dir resume i ((some e, c), s) h = h
  after_launch-keeps dir resume i ((none, c), (j, w)) h = elim (Bool-cases (c && resume)) [
    | inl e ↦ rw e (retry_fresh-keeps dir i j _ h)
    | inr e ↦ rw e h
  ]

  pub spawn_process-keeps :
      (dir : Text) (resume : Bool) (i : Instance) (w : W)
      → IsSameBut i (spawn_process env dir resume (i, w)).1.0
  unfolding spawn_process
  spawn_process-keeps dir resume i w =
      after_launch-keeps dir resume i (launch env dir resume (i, w)) (launch-keeps dir resume i w)
