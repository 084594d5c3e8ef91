-- ===== src/Ssh/ProcessManager.antt =====
-- ssh/process_manager.go: the terminals on one remote host, and the registry of those on all hosts.
--
-- `W` is the state of the world. What golang.org/x/crypto/ssh does is the record Remote; the sessions
-- that it opens are numbers. Spawn lets go of its lock only around calls of that library.
pub mod Spawned
pub mod Registry
mod Tests
use claude_squad_ide.Base.{
  ℕ, suc, Bool, true, false, List, [], ◌∷◌, ◌++◌, Option, none, some, Text, codes, itoa, join,
  Assoc, lookup, insert, delete, is_empty, if◌then◌else◌,
}
use claude_squad_ide.Session.Instance.World.{Reply, ok, err}
use claude_squad_ide.Session.Git.Shell.{shell_escape, command_line}
use claude_squad_ide.Pty.Monitor
use claude_squad_ide.Pty.Session.{Result, Error, not_found}
use claude_squad_ide.Pty.Manager.{SpawnOptions, or_default}
use claude_squad_ide.Ssh.Session.{SshSession}
use claude_squad_ide.Ssh.Session

-- A connection. `none` is the nil error.
pub record Remote (W : Type 0) : Type 0 where
  pub new_session : W → Reply ℕ × W
  pub request_pty : ℕ → ℕ → ℕ → W → Option Text × W
  pub stdin_pipe : ℕ → W → Option Text × W
  pub stdout_pipe : ℕ → W → Option Text × W
  pub start : ℕ → Text → W → Option Text × W
  pub close : ℕ → W → W

-- `client` is what `m.client.SSHClient()` gives; no connection is nil.
pub record SshManager (W : Type 0) : Type 0 where
  pub client : Option (Remote W)
  pub host_id : Text
  pub sessions : Assoc SshSession
  pub counter : ℕ

-- The command line, which a login shell reads. The arguments are joined as they are.
abbrev pub in_dir : Text → Text → Text
in_dir dir inner =
    if is_empty dir then inner else codes "cd " ++ (shell_escape dir ++ (codes " && " ++ inner))

unfoldable pub inner_command : Text → List Text → Text → Text
unfolding shell_escape
inner_command program args dir = in_dir dir (command_line program args)

unfoldable pub remote_command : Text → List Text → Text → Text
unfolding shell_escape inner_command
remote_command program args dir = codes "bash -lc " ++ shell_escape (inner_command program args dir)

-- `fmt.Sprintf("ssh-%s-%d", hostID, n)`
unfoldable pub ssh_id : Text → ℕ → Text
ssh_id host n = codes "ssh-" ++ (host ++ b'-' ∷ itoa n)

abbrev pub error_of {ℓ} : {A : Type ℓ} → Result A → Option Error
error_of (Result.ok a) = none
error_of (Result.err e) = some e

module _ {W : Type 0} where
  abbrev pub new_ssh_manager : Option (Remote W) → Text → SshManager W
  new_ssh_manager client host_id = record {
    client = client;
    host_id = host_id;
    sessions = [];
    counter = 0;
  }

  unfoldable pub update_client : Option (Remote W) → SshManager W → SshManager W
  update_client client m = record m { client = client }

  abbrev pub get : SshManager W → Text → Option SshSession
  get m id = lookup id m.sessions

  -- A step of Spawn, after whose failure the session is closed.
  abbrev pub or_close :
      Remote W → ℕ → Text → Option Text × W → (W → Option Text × W) → Option Text × W
  or_close r s what (some e, w) next = (some (what ++ e), r.close s w)
  or_close r s what (none, w) next = next w

  unfoldable pub start_command : Remote W → ℕ → ℕ → Text → ℕ → W → Option Text × W
  start_command r rows cols cmd s w =
      or_close r s (codes "request pty: ") (r.request_pty s rows cols w) λ w₁.
        or_close r s (codes "stdin pipe: ") (r.stdin_pipe s w₁) λ w₂.
          or_close r s (codes "stdout pipe: ") (r.stdout_pipe s w₂)
            λ w₃. or_close r s (codes "start command: ") (r.start s cmd w₃) λ w₄. (none, w₄)

  abbrev pub registered : ℕ → SshManager W → SshManager W
  registered s m =
      let id = ssh_id m.host_id (suc m.counter) in
      record m {
        sessions = insert id (Session.new_ssh_session id true (some s)) m.sessions;
        counter = suc m.counter;
      }

  abbrev pub finish_spawn : SshManager W → ℕ → Option Text × W → Reply Text × (SshManager W × W)
  finish_spawn m s (some e, w) = (err e, (m, w))
  finish_spawn m s (none, w) = (ok (ssh_id m.host_id (suc m.counter)), (registered s m, w))

  abbrev pub spawn_in :
      Remote W → ℕ → ℕ → Text → SshManager W → Reply ℕ × W → Reply Text × (SshManager W × W)
  spawn_in r rows cols cmd m (err e, w) = (err (codes "new ssh session: " ++ e), (m, w))
  spawn_in r rows cols cmd m (ok s, w) = finish_spawn m s (start_command r rows cols cmd s w)

  abbrev pub spawn_with :
      Option (Remote W) → ℕ → ℕ → Text → SshManager W → W → Reply Text × (SshManager W × W)
  spawn_with none rows cols cmd m w = (err (codes "ssh not connected"), (m, w))
  spawn_with (some r) rows cols cmd m w = spawn_in r rows cols cmd m (r.new_session w)

  -- The environment in the options is not looked at.
  unfoldable pub spawn :
      Text → List Text → SpawnOptions → SshManager W → W → Reply Text × (SshManager W × W)
  unfolding start_command remote_command ssh_id
  spawn program args opts m w =
      spawn_with m.client (or_default opts.rows 24) (or_default opts.cols 80)
        (remote_command program args opts.dir) m w

  abbrev pub killed :
      Text → SshManager W → Option SshSession → Result (Option ℕ × Option SshSession) × SshManager W
  killed id m none = (Result.err (not_found id), m)
  killed id m (some s) = (Result.ok (Session.close s), record m { sessions = delete id m.sessions })

  -- What closing the session does comes back beside the manager.
  unfoldable pub kill : Text → SshManager W → Result (Option ℕ × Option SshSession) × SshManager W
  unfolding Session.close
  kill id m = killed id m (get m id)

  unfoldable pub resize : (ℕ → ℕ → Option Error) → Text → ℕ → ℕ → SshManager W → Option Error
  unfolding Session.resize
  resize window_change id rows cols m = elim (get m id) [
    | none ↦ some (not_found id)
    | some s ↦ Session.resize window_change s rows cols
  ]

  unfoldable pub write : (Text → Result ℕ) → Text → Text → SshManager W → Option Error
  unfolding Session.write
  write stdin_write id data_ m = elim (get m id) [
    | none ↦ some (not_found id)
    | some s ↦ error_of (Session.write stdin_write s data_)
  ]

  unfoldable pub get_content : Text → SshManager W → Text
  get_content id m = elim (get m id) [ none ↦ [] | some s ↦ Monitor.content s.monitor ]

  unfoldable pub has_updated : (Text → Text) → Text → SshManager W → SshManager W × (Bool × Bool)
  has_updated sha256 id m = elim (get m id) [
    | none ↦ (m, (false, false))
    | some s ↦
        let (monitor, r) = Monitor.has_updated sha256 s.monitor in
        (record m { sessions = insert id (record s { monitor = monitor }) m.sessions }, r)
  ]

  unfoldable pub has_prompt : Text → SshManager W → Bool
  has_prompt id m = elim (get m id) [ none ↦ false | some s ↦ Monitor.has_prompt s.monitor ]

  unfoldable pub check_trust_prompt : Text → SshManager W → Bool
  check_trust_prompt id m = elim (get m id) [
    | none ↦ false
    | some s ↦ Monitor.check_trust_prompt s.monitor
  ]

  -- `exits_in_time` says whether the command ends before the time is over.
  unfoldable pub wait_exit : Bool → Text → SshManager W → Bool
  wait_exit exits_in_time id m = elim (get m id) [
    | none ↦ true
    | some s ↦ if s.exited then true else exits_in_time
  ]

  -- DynamicSSHRegistry, over the managers of all hosts that are connected.
  unfoldable pub registry_get : List (SshManager W) → Text → Option SshSession
  registry_get [] id = none
  registry_get (m ∷ ms) id = elim (get m id) [ none ↦ registry_get ms id | some s ↦ some s ]

  -- `none` is the nil error. Each manager is asked with the requests of its own sessions.
  unfoldable pub registry_resize :
      (Text → ℕ → ℕ → Option Error) → List (SshManager W) → Text → ℕ → ℕ → Option Error
  unfolding resize
  registry_resize window_change [] id rows cols = some (not_found id)
  registry_resize window_change (m ∷ ms) id rows cols =
      elim (resize (window_change m.host_id) id rows cols m) [
        | none ↦ none
        | some e ↦ registry_resize window_change ms id rows cols
      ]
