-- ===== src/Ssh/ProcessManager/Spawned.antt =====
-- ssh/process_manager.go: what Spawn and Kill leave behind, on every branch.
use claude_squad_ide.Base.{
  ℕ, suc, ◌≤◌, ◌<◌, ◌≡◌, refl, subst, sym, ap, ◌⊎◌, inl, inr, true, List, [], ◌∷◌, Option, none,
  some, Text, codes, Assoc, lookup, insert, delete, lookup-insert, lookup-delete, text_eq,
  text_eq_iff, arith, Bool-cases, if◌then◌else◌,
}
use claude_squad_ide.Session.Instance.World.{Reply, ok, err}
use claude_squad_ide.Pty.Session.{Result, not_found}
use claude_squad_ide.Pty.Manager.{SpawnOptions, or_default}
use claude_squad_ide.Ssh.Session.{SshSession, new_ssh_session}
use claude_squad_ide.Ssh.Session
use claude_squad_ide.Ssh.ProcessManager.{
  Remote, SshManager, ssh_id, remote_command, start_command, or_close, finish_spawn, spawn_in,
  spawn_with, spawn, get, kill, killed,
}
use claude_squad_ide.Ssh.ProcessManager.Registry.{Named, IsNamed, ssh_id-injective}

Named-mono : (h : Text) (c d : ℕ) (m : Assoc SshSession) → c ≤ d → Named h c m → Named h d m
Named-mono h c d [] l v = tt
Named-mono h c d ((k, s) ∷ m) l v = ((v.0.0, omega (arith, v.0.1), v.0.2), Named-mono h c d m l v.1)

Named-insert :
    (h : Text) (c n : ℕ) (s : SshSession) (m : Assoc SshSession)
    → n ≤ c
    → Named h c m
    → Named h c (insert (ssh_id h n) s m)
unfolding insert
Named-insert h c n s [] l v = ((n, l, refl), tt)
Named-insert h c n s ((k, t) ∷ m) l v = elim (Bool-cases (text_eq k (ssh_id h n))) [
  | inl e ↦ rw e ((n, l, refl), v.1)
  | inr e ↦ rw e (v.0, Named-insert h c n s m l v.1)
]

Named-delete :
    (h : Text) (c : ℕ) (k : Text) (m : Assoc SshSession) → Named h c m → Named h c (delete k m)
unfolding delete
Named-delete h c k [] v = tt
Named-delete h c k ((j, t) ∷ m) v = elim (Bool-cases (text_eq j k)) [
  | inl e ↦ rw e (Named-delete h c k m v.1)
  | inr e ↦ rw e (v.0, Named-delete h c k m v.1)
]

lookup-fresh :
    (h : Text) (c n : ℕ) (m : Assoc SshSession) → c < n → Named h c m → lookup (ssh_id h n) m ≡ none
unfolding lookup
lookup-fresh h c n [] l v = refl
lookup-fresh h c n ((k, s) ∷ m) l v = ground (
  arith,
  v.0,
  text_eq_iff k (ssh_id h n),
  ssh_id-injective h h v.0.0 n,
  lookup-fresh h c n m l v.1,
)

module _ {W : Type 0} where
  -- A session that was opened under the number `s` is registered under an identifier that was free,
  -- and no other session is touched; or it is closed as the last thing, and the manager is as before.
  abbrev pub Kept : Remote W → SshManager W → ℕ → Reply Text × (SshManager W × W) → Type 0
  Kept r m s (ok id, (m', w')) =
      (lookup id m.sessions ≡ none)
      × ((j : Text)
          → lookup j m'.sessions ≡ (
              if text_eq id j
              then some (new_ssh_session id true (some s))
              else lookup j m.sessions))
      × IsNamed m'
  Kept r m s (err e, (m', w')) = (m' ≡ m) × ((w : W) × (w' ≡ r.close s w))

  -- The same, or no session was opened and the manager is as before.
  abbrev pub SpawnOutcome : Remote W → SshManager W → W → Reply Text × (SshManager W × W) → Type 0
  SpawnOutcome r m w (reply, (m', w')) =
      ((s : ℕ) × ((r.new_session w).0 ≡ ok s) × Kept r m s (reply, (m', w')))
      ⊎ ((e : Text) × ((r.new_session w).0 ≡ err e) × (m' ≡ m) × (w' ≡ (r.new_session w).1))

  -- What a failed start has done last.
  abbrev ClosedIfFailed : Remote W → ℕ → Option Text × W → Type 0
  ClosedIfFailed r s (none, w) = Unit {0}
  ClosedIfFailed r s (some e, w') = (w : W) × (w' ≡ r.close s w)

  or_close-closes :
      (r : Remote W) (s : ℕ) (what : Text) (o : Option Text × W) (next : W → Option Text × W)
      → ((w : W) → ClosedIfFailed r s (next w))
      → ClosedIfFailed r s (or_close r s what o next)
  or_close-closes r s what (some e, w) next h = (w, refl)
  or_close-closes r s what (none, w) next h = h w

  start_command-closes :
      (r : Remote W) (rows cols : ℕ) (cmd : Text) (s : ℕ) (w : W)
      → ClosedIfFailed r s (start_command r rows cols cmd s w)
  unfolding start_command
  start_command-closes r rows cols cmd s w =
      let last : W → Option Text × W = λ w₄. (none, w₄) in
      let run : W → Option Text × W =
        λ w₃. or_close r s (codes "start command: ") (r.start s cmd w₃) last in
      let output : W → Option Text × W =
        λ w₂. or_close r s (codes "stdout pipe: ") (r.stdout_pipe s w₂) run in
      let input : W → Option Text × W =
        λ w₁. or_close r s (codes "stdin pipe: ") (r.stdin_pipe s w₁) output in
      or_close-closes r s (codes "request pty: ") (r.request_pty s rows cols w) input λ w₁.
        or_close-closes r s (codes "stdin pipe: ") (r.stdin_pipe s w₁) output λ w₂.
          or_close-closes r s (codes "stdout pipe: ") (r.stdout_pipe s w₂) run
            λ w₃. or_close-closes r s (codes "start command: ") (r.start s cmd w₃) last λ w₄. tt {0}

  finish_spawn-Kept :
      (r : Remote W) (m : SshManager W) (s : ℕ) (o : Option Text × W)
      → IsNamed m
      → ClosedIfFailed r s o
      → Kept r m s (finish_spawn m s o)
  finish_spawn-Kept r m s (some e, w) v c = (refl, c)
  finish_spawn-Kept r m s (none, w) v c =
      let n = suc m.counter in
      (
        lookup-fresh m.host_id m.counter n m.sessions (omega arith) v,
        λ j. lookup-insert (ssh_id m.host_id n) j _ m.sessions,
        Named-insert m.host_id n n _ m.sessions (omega arith)
            (Named-mono m.host_id m.counter n m.sessions (omega arith) v),
      )

  spawn_in-SpawnOutcome :
      (r : Remote W) (rows cols : ℕ) (cmd : Text) (m : SshManager W) (w : W) (o : Reply ℕ × W)
      → r.new_session w ≡ o
      → IsNamed m
      → SpawnOutcome r m w (spawn_in r rows cols cmd m o)
  spawn_in-SpawnOutcome r rows cols cmd m w (err e, w₁) q v =
      inr (e, ap (λ o. o.0) q, refl, sym (ap (λ o. o.1) q))
  spawn_in-SpawnOutcome r rows cols cmd m w (ok s, w₁) q v = inl (
    s,
    ap (λ o. o.0) q,
    finish_spawn-Kept r m s (start_command r rows cols cmd s w₁) v
        (start_command-closes r rows cols cmd s w₁),
  )

  -- Over a connection, Spawn opens no session and leaves the manager as it was; or it registers the
  -- one that it opens under a free identifier, with no other touched and all still named after the
  -- host; or it fails, closes that session as the last thing and leaves the manager as it was.
  pub spawn_outcome :
      (r : Remote W) (program : Text) (args : List Text) (opts : SpawnOptions) (m : SshManager W)
      (w : W)
      → m.client ≡ some r
      → IsNamed m
      → SpawnOutcome r m w (spawn program args opts m w)
  unfolding spawn
  spawn_outcome r program args opts m w c v =
      let rows = or_default opts.rows 24 in
      let cols = or_default opts.cols 80 in
      let cmd = remote_command program args opts.dir in
      subst (λ o. SpawnOutcome r m w (spawn_with o rows cols cmd m w)) (sym c)
        (spawn_in-SpawnOutcome r rows cols cmd m w (r.new_session w) refl v)

  killed-IsNamed :
      (id : Text) (m : SshManager W) (o : Option SshSession) → IsNamed m → IsNamed (killed id m o).1
  killed-IsNamed id m none v = v
  killed-IsNamed id m (some s) v = Named-delete m.host_id m.counter id m.sessions v

  -- Kill keeps every session named after the host. An identifier that is there is taken out of the
  -- map alone, and its session is closed; any other is an error that changes nothing.
  pub kill_outcome :
      (id : Text) (m : SshManager W)
      → IsNamed m
      → IsNamed (kill id m).1
        × ((s : SshSession)
            → get m id ≡ some s
            → ((kill id m).0 ≡ Result.ok (Session.close s))
              × ((j : Text) → get (kill id m).1 j ≡ (if text_eq id j then none else get m j)))
        × (get m id ≡ none → kill id m ≡ (Result.err (not_found id), m))
  unfolding kill
  kill_outcome id m v = (
    killed-IsNamed id m (get m id) v,
    λ s e. (rw e refl, λ j. rw e (lookup-delete id j m.sessions)),
    λ e. rw e refl,
  )
