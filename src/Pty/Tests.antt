-- ===== src/Pty/Tests.antt =====
-- pty/: runs of the definitions, and the theorems at concrete inputs.
use claude_squad_ide.Base.{
  ℕ, ◌≡◌, refl, true, false, List, [], ◌∷◌, Option, none, some, itoa, Text, codes,
}
use claude_squad_ide.Pty.Monitor
use claude_squad_ide.Pty.Session.{Session, new_session, subscribe, output, broadcast, ok}
use claude_squad_ide.Pty.Session.Steps.{
  IsSound, run, subscribes, outputs, ends, exits, closes, run-new_session,
}
use claude_squad_ide.Pty.Manager.{SpawnOptions, Command, new_manager, spawn, session_id}
use claude_squad_ide.Pty.Manager.Ids.{Action, spawns, kills, history, Distinct, history-Distinct}

abbrev one : Session
one = new_session (codes "session-1")

run-new_session_example :
    (s : Session) × (run (subscribes ∷ outputs (codes "hi") ∷ exits ∷ closes ∷ ends ∷ []) one
      ≡ some s)
    × IsSound s
run-new_session_example =
    run-new_session (codes "session-1")
      (subscribes ∷ outputs (codes "hi") ∷ exits ∷ closes ∷ ends ∷ [])

one-IsSound : IsSound one
unfolding new_session
one-IsSound = tt

abbrev watched : Session
watched = (subscribe one).1

watched_open : watched.closed ≡ false
unfolding subscribe new_session
watched_open = refl

abbrev exited : Session
exited = record one { closed = true; exited = true }

abbrev options : SpawnOptions
options = record { dir = codes "/tmp"; env = []; rows = 0; cols = 120 }

-- The terminal starts with the default rows and the given columns.
abbrev starts : Command → ℕ → ℕ → Option Text
starts c rows cols = none

spawn_first : (spawn [] starts (codes "bash") [] options new_manager).0 ≡ ok (codes "session-1")
unfolding spawn session_id itoa
spawn_first = refl

abbrev actions : List Action
actions =
    spawns (codes "a") [] options ∷ kills (codes "session-1") ∷ spawns (codes "b") [] options ∷ []

history-Distinct_example : Distinct (history [] starts actions new_manager)
history-Distinct_example = history-Distinct [] starts actions new_manager

abbrev fed : Session
fed = record one { monitor = Monitor.write one.monitor (codes "lost") }

fed-output : output (codes "lost") one ≡ some fed
unfolding output broadcast new_session
fed-output = refl
