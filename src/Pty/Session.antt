-- ===== src/Pty/Session.antt =====
-- pty/manager.go, type Session: a terminal session with its subscribers.
--
-- A subscriber is a pointer to a struct with a channel: here a number, and `chans` is the heap. What
-- a goroutine does under one hold of a lock is one function; `none` is a run-time panic (a send on,
-- or a close of, a closed channel).
pub mod Steps
pub mod Delivery
use claude_squad_ide.Base.{
  ℕ, suc, ◌+◌, Bool, true, false, List, [], ◌∷◌, ◌++◌, Option, none, some, Text, length, keep, not,
  ◌==◌, ltb, if◌then◌else◌,
}
use claude_squad_ide.Pty.Monitor
use claude_squad_ide.Pty.Monitor.{Monitor}

pub record Channel : Type 0 where
  pub queue : List Text
  pub is_open : Bool

-- `make(chan []byte, 256)`
abbrev pub channel_cap : ℕ
channel_cap = 256

pub record Session : Type 0 where
  pub id : Text
  pub closed : Bool
  pub monitor : Monitor
  pub subscribers : List ℕ
  pub exited : Bool
  pub chans : ℕ → Channel
  pub next_sub : ℕ

pub data Error : Type 0 where
  session_closed : Error
  not_found : Text → Error
  is_closed : Text → Error
  missing_session_id : Error
  failed : Text → Error

pub data Result {ℓ} (A : Type ℓ) : Type ℓ where
  ok : A → Result A
  err : Error → Result A

abbrev pub update : (ℕ → Channel) → ℕ → Channel → ℕ → Channel
update h p c q = if q == p then c else h q

-- The session that `Spawn` builds.
unfoldable pub new_session : Text → Session
unfolding Monitor.new_monitor
new_session id = record {
  id = id;
  closed = false;
  monitor = Monitor.new_monitor 65536;
  subscribers = [];
  exited = false;
  chans = λ p. record { queue = []; is_open = false };
  next_sub = 0;
}

-- `ptmx_write` is the write to the terminal device.
unfoldable pub write : (Text → Result ℕ) → Session → Text → Result ℕ
write ptmx_write s p = if s.closed then err session_closed else ptmx_write p

unfoldable pub subscribe : Session → ℕ × Session
subscribe s = (
  s.next_sub,
  record s {
    subscribers = s.next_sub ∷ s.subscribers;
    chans = update s.chans s.next_sub (record { queue = []; is_open = true });
    next_sub = suc s.next_sub;
  },
)

unfoldable pub unsubscribe : ℕ → Session → Session
unsubscribe p s = record s { subscribers = keep (λ q. not (q == p)) s.subscribers }

unfoldable pub get_snapshot : Session → Text
get_snapshot s = Monitor.content s.monitor

-- `select { case ch <- data: default: }`
unfoldable pub send : Channel → Text → Option Channel
send c data_ =
    if c.is_open
    then some
        (if ltb (length c.queue) channel_cap then record c { queue = c.queue ++ data_ ∷ [] } else c)
    else none

-- `close(ch)`
unfoldable pub close_channel : Channel → Option Channel
close_channel c = if c.is_open then some (record c { is_open = false }) else none

-- A loop over the subscribers that changes each one's channel.
unfoldable pub for_each : (Channel → Option Channel) → List ℕ → (ℕ → Channel) → Option (ℕ → Channel)
for_each f [] h = some h
for_each f (p ∷ ps) h = elim (f (h p)) [ none ↦ none | some c ↦ for_each f ps (update h p c) ]

abbrev pub with_chans : Session → Option (ℕ → Channel) → Option Session
with_chans s none = none
with_chans s (some h) = some (record s { chans = h })

unfoldable pub broadcast : Text → Session → Option Session
unfolding for_each send
broadcast data_ s = with_chans s (for_each (λ c. send c data_) s.subscribers s.chans)

-- `for sub := range subscribers { close(sub.Ch); delete(subscribers, sub) }`, at the end of the
-- output and in `close`.
unfoldable pub drop_subscribers : Session → Option Session
unfolding for_each close_channel
drop_subscribers s =
    with_chans (record s { subscribers = [] }) (for_each close_channel s.subscribers s.chans)

-- One round of the goroutine that reads the terminal.
unfoldable pub output : Text → Session → Option Session
unfolding broadcast Monitor.write
output data_ s = broadcast data_ (record s { monitor = Monitor.write s.monitor data_ })

-- The goroutine that waits for the process. There is one, and it closes the channel once; a second
-- close, which would panic, is not a step.
unfoldable pub process_exit : Session → Session
process_exit s = record s { closed = true; exited = true }

unfoldable pub close : Session → Option Session
unfolding drop_subscribers
close s = if s.closed then some s else drop_subscribers (record s { closed = true })
