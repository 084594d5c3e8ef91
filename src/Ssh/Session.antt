-- ===== src/Ssh/Session.antt =====
-- ssh/session.go: a terminal on a remote host.
--
-- Subscribers, their channels and panics are as in Pty/Session.
pub mod Streams
use claude_squad_ide.Base.{
  ℕ, suc, Bool, true, false, not, ◌||◌, List, [], ◌∷◌, Option, none, some, Text, codes, keep, ◌==◌,
  is_none, if◌then◌else◌,
}
use claude_squad_ide.Pty.Monitor
use claude_squad_ide.Pty.Monitor.{Monitor}
use claude_squad_ide.Pty.Session.{
  Channel, Result, ok, err, Error, session_closed, update, for_each, send, close_channel,
}

-- `has_stdin` and `ssh_sess` say which pointers are not nil; the latter is a number.
pub record SshSession : Type 0 where
  pub id : Text
  pub closed : Bool
  pub has_stdin : Bool
  pub ssh_sess : Option ℕ
  pub monitor : Monitor
  pub exited : Bool
  pub subscribers : List ℕ
  pub chans : ℕ → Channel
  pub next_sub : ℕ

unfoldable pub new_ssh_session : Text → Bool → Option ℕ → SshSession
unfolding Monitor.new_monitor
new_ssh_session id has_stdin ssh_sess = record {
  id = id;
  closed = false;
  has_stdin = has_stdin;
  ssh_sess = ssh_sess;
  monitor = Monitor.new_monitor 65536;
  exited = false;
  subscribers = [];
  chans = λ p. record { queue = []; is_open = false };
  next_sub = 0;
}

-- `stdin_write` is the write to the pipe.
unfoldable pub write : (Text → Result ℕ) → SshSession → Text → Result ℕ
write stdin_write s p = if s.closed || not s.has_stdin then err session_closed else stdin_write p

unfoldable pub subscribe : SshSession → ℕ × SshSession
subscribe s = (
  s.next_sub,
  record s {
    subscribers = s.next_sub ∷ s.subscribers;
    chans = update s.chans s.next_sub (record { queue = []; is_open = true });
    next_sub = suc s.next_sub;
  },
)

unfoldable pub unsubscribe : ℕ → SshSession → SshSession
unsubscribe p s = record s { subscribers = keep (λ q. not (q == p)) s.subscribers }

unfoldable pub get_snapshot : SshSession → Text
get_snapshot s = Monitor.content s.monitor

-- `window_change` is the request to the host; `none` is the nil error.
unfoldable pub resize : (ℕ → ℕ → Option Error) → SshSession → ℕ → ℕ → Option Error
resize window_change s rows cols =
    if s.closed || is_none s.ssh_sess then some session_closed else window_change rows cols

abbrev pub with_chans : SshSession → Option (ℕ → Channel) → Option SshSession
with_chans s none = none
with_chans s (some h) = some (record s { chans = h })

unfoldable pub feed_output : Text → SshSession → Option SshSession
unfolding for_each send Monitor.write
feed_output data_ s =
    with_chans (record s { monitor = Monitor.write s.monitor data_ })
      (for_each (λ c. send c data_) s.subscribers s.chans)

-- The loop over the subscribers in `close`, and in the goroutine of Spawn that reads the output.
unfoldable pub drop_subscribers : SshSession → Option SshSession
unfolding for_each close_channel
drop_subscribers s =
    with_chans (record s { subscribers = [] }) (for_each close_channel s.subscribers s.chans)

-- The goroutine of Spawn that waits for the command.
unfoldable pub process_exit : SshSession → SshSession
process_exit s = record s { closed = true; exited = true }

-- The connection's session that is closed, if any, and the session.
unfoldable pub close : SshSession → Option ℕ × Option SshSession
unfolding drop_subscribers
close s =
    if s.closed then (none, some s) else (s.ssh_sess, drop_subscribers (record s { closed = true }))
