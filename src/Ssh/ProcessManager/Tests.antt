-- ===== src/Ssh/ProcessManager/Tests.antt =====
-- A host whose sessions are numbered in turn, where a command in `/gone` cannot be started.
use claude_squad_ide.Base.{
  ℕ, suc, ◌≡◌, refl, true, List, [], ◌∷◌, ◌++◌, none, some, Text, codes, itoa, contains, insert,
  lookup, arith, if◌then◌else◌,
}
use claude_squad_ide.Session.Instance.World.{ok, err}
use claude_squad_ide.Pty.Manager.{SpawnOptions}
use claude_squad_ide.Pty.Session.Steps.{subscribes, outputs, closes, ends, Event}
use claude_squad_ide.Pty.Session.Steps
use claude_squad_ide.Ssh.Session.{SshSession, new_ssh_session}
use claude_squad_ide.Ssh.Session.Streams.{as_local, all_local, ssh_run, ssh_run-as_local}
use claude_squad_ide.Ssh.ProcessManager.{
  Remote, SshManager, new_ssh_manager, registered, remote_command, ssh_id, spawn, registry_get,
}
use claude_squad_ide.Ssh.ProcessManager.Registry.{registry_get-finds}
use claude_squad_ide.Ssh.ProcessManager.Spawned.{SpawnOutcome, spawn_outcome}

-- The world is the number of the next session and those that are closed.
abbrev Host : Type 0
Host = ℕ × List ℕ

abbrev remote : Remote Host
remote = record {
  new_session = λ (n, closed). (ok n, (suc n, closed));
  request_pty = λ s rows cols w. (none, w);
  stdin_pipe = λ s w. (none, w);
  stdout_pipe = λ s w. (none, w);
  start =
      λ s cmd w. (if contains cmd (codes "/gone") then some (codes "no such folder") else none, w);
  close = λ s (n, closed). (n, s ∷ closed);
}

abbrev box : SshManager Host
box = new_ssh_manager (some remote) (codes "box")

abbrev in_folder : Text → SpawnOptions
in_folder dir = record { dir = dir; env = []; rows = 0; cols = 0 }

spawn_gone :
    spawn (codes "claude") [] (in_folder (codes "/gone")) box (4, [])
    ≡ (err (codes "start command: no such folder"), (box, (5, 4 ∷ [])))
unfolding spawn
spawn_gone = refl

spawn_outcome_example :
    SpawnOutcome remote box
      (4, [])
      (spawn (codes "claude") [] (in_folder (codes "/gone")) box (4, []))
spawn_outcome_example =
    spawn_outcome remote (codes "claude") [] (in_folder (codes "/gone")) box (4, []) refl tt

-- One argument with a blank in it and two arguments give one command.
arguments_lost :
    remote_command (codes "claude") (codes "-p" ∷ codes "fix it" ∷ []) []
    ≡ remote_command (codes "claude") (codes "-p" ∷ codes "fix" ∷ codes "it" ∷ []) []
unfolding remote_command
arguments_lost = refl

abbrev box_session : SshSession
box_session = new_ssh_session (ssh_id (codes "box") 1) true (some 4)

abbrev other : SshManager Host
other = registered 9 (new_ssh_manager (some remote) (codes "box-1"))

abbrev full : SshManager Host
full = registered 4 box

registry_get-finds_example :
    registry_get ((other ∷ []) ++ full ∷ []) (ssh_id (codes "box") 1) ≡ some box_session
unfolding ssh_id insert lookup itoa
registry_get-finds_example =
    registry_get-finds (ssh_id (codes "box") 1) box_session full (other ∷ []) []
      ((1, omega arith, refl), tt) ((((1, omega arith, refl), tt), λ e. cc), tt) refl

abbrev visit : List Event
visit = subscribes ∷ outputs (codes "hello") ∷ closes ∷ ends ∷ []

ssh_run-as_local_example :
    all_local (ssh_run visit box_session) ≡ Steps.run visit (as_local box_session)
ssh_run-as_local_example = ssh_run-as_local visit box_session
