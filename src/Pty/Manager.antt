-- ===== src/Pty/Manager.antt =====
-- pty/manager.go, type Manager: the sessions by their identifiers.
--
-- The kernel's side (`pty.StartWithSize`, `pty.Setsize`, the write to the device) is an argument.
pub mod Ids
use claude_squad_ide.Base.{
  ℕ, suc, Bool, true, false, List, [], ◌∷◌, ◌++◌, Option, none, some, map, Text, codes, itoa, Assoc,
  lookup, insert, delete, is_empty, ◌==◌, if◌then◌else◌,
}
use claude_squad_ide.Pty.Monitor
use claude_squad_ide.Pty.Session
use claude_squad_ide.Pty.Session.{Session, Error, Result, ok, err, not_found, is_closed, failed}

pub record SpawnOptions : Type 0 where
  pub dir : Text
  pub env : List Text
  pub rows : ℕ
  pub cols : ℕ

-- What `exec.Command` is given.
pub record Command : Type 0 where
  pub program : Text
  pub args : List Text
  pub dir : Text
  pub env : List Text

pub record Manager : Type 0 where
  pub sessions : Assoc Session
  pub counter : ℕ

abbrev pub new_manager : Manager
new_manager = record { sessions = []; counter = 0 }

-- `fmt.Sprintf("session-%d", n)`
unfoldable pub session_id : ℕ → Text
session_id n = codes "session-" ++ itoa n

abbrev pub or_default : ℕ → ℕ → ℕ
or_default n d = if n == 0 then d else n

-- The environment of the new process; `environ` is that of this one. A directory that is not set is
-- the empty text, in the options as in the command.
unfoldable pub command : List Text → Text → List Text → SpawnOptions → Command
command environ program args opts = record {
  program = program;
  args = args;
  dir = opts.dir;
  env = (environ ++ codes "TERM=xterm-256color" ∷ []) ++ opts.env;
}

abbrev finish_spawn : Manager → Option Text → Result Text × Manager
finish_spawn m (some e) = (err (failed e), m)
finish_spawn m none =
    let id = session_id (suc m.counter) in
    (
      Result.ok id,
      record { sessions = insert id (Session.new_session id) m.sessions; counter = suc m.counter },
    )

-- `start` is `pty.StartWithSize`, with its error if it fails.
unfoldable pub spawn :
    List Text
    → (Command → ℕ → ℕ → Option Text)
    → Text
    → List Text
    → SpawnOptions
    → Manager
    → Result Text × Manager
unfolding command
spawn environ start program args opts m =
    finish_spawn m (
      start (command environ program args opts) (or_default opts.rows 24) (or_default opts.cols 80))

unfoldable pub get_session : Text → Manager → Option Session
get_session id m = lookup id m.sessions

abbrev finish_kill : Text → Manager → Option Session → Result (Option Session) × Manager
finish_kill id m none = (err (not_found id), m)
finish_kill id m (some s) = (ok (Session.close s), record m { sessions = delete id m.sessions })

-- The session is closed after it has left the map; it comes back beside the manager.
unfoldable pub kill : Text → Manager → Result (Option Session) × Manager
kill id m = finish_kill id m (lookup id m.sessions)

abbrev resize_session : (ℕ → ℕ → Option Text) → Text → ℕ → ℕ → Option Session → Option Error
resize_session setsize id rows cols none = some (not_found id)
resize_session setsize id rows cols (some s) =
    if s.closed
    then some (is_closed id)
    else (elim (setsize rows cols) [ none ↦ none | some e ↦ some (failed e) ])

-- `none` is the nil error.
unfoldable pub resize : (ℕ → ℕ → Option Text) → Text → ℕ → ℕ → Manager → Option Error
resize setsize id rows cols m = resize_session setsize id rows cols (lookup id m.sessions)

unfoldable pub close_each : Assoc Session → List (Option Session)
close_each [] = []
close_each ((id, s) ∷ rest) = Session.close s ∷ close_each rest

unfoldable pub close : Manager → List (Option Session) × Manager
unfolding close_each
close m = (close_each m.sessions, record m { sessions = [] })

unfoldable pub get_content : Text → Manager → Text
get_content id m = elim (lookup id m.sessions) [ none ↦ [] | some s ↦ Monitor.content s.monitor ]

-- The session's monitor remembers the hash.
unfoldable pub has_updated : (Text → Text) → Text → Manager → Manager × (Bool × Bool)
has_updated sha256 id m = elim (lookup id m.sessions) [
  | none ↦ (m, (false, false))
  | some s ↦
      let (monitor, r) = Monitor.has_updated sha256 s.monitor in
      (record m { sessions = insert id (record s { monitor = monitor }) m.sessions }, r)
]

unfoldable pub has_prompt : Text → Manager → Bool
has_prompt id m = elim (lookup id m.sessions) [
  | none ↦ false
  | some s ↦ Monitor.has_prompt s.monitor
]

unfoldable pub check_trust_prompt : Text → Manager → Bool
check_trust_prompt id m = elim (lookup id m.sessions) [
  | none ↦ false
  | some s ↦ Monitor.check_trust_prompt s.monitor
]

-- `exits_in_time` says whether the process exits before the time is over.
unfoldable pub wait_exit : Bool → Text → Manager → Bool
wait_exit exits_in_time id m = elim (lookup id m.sessions) [
  | none ↦ true
  | some s ↦ if s.exited then true else exits_in_time
]

abbrev write_session : (Text → Result ℕ) → Text → Text → Option Session → Option Error
write_session ptmx_write id data_ none = some (not_found id)
write_session ptmx_write id data_ (some s) = elim (Session.write ptmx_write s data_) [
  | ok n ↦ none
  | err e ↦ some e
]

unfoldable pub write : (Text → Result ℕ) → Text → Text → Manager → Option Error
write ptmx_write id data_ m = write_session ptmx_write id data_ (lookup id m.sessions)
