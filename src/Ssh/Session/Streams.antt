-- ===== src/Ssh/Session/Streams.antt =====
-- ssh/session.go: a remote terminal is streamed exactly as a local one.
use claude_squad_ide.Base.{
  ℕ, ◌≡◌, refl, ap, ◌∙◌, List, [], ◌∷◌, Option, none, some, true, Bool-cases, inl, inr,
}
use claude_squad_ide.Pty.Monitor
use claude_squad_ide.Pty.Session.{Session, Channel}
use claude_squad_ide.Pty.Session
use claude_squad_ide.Pty.Session.Steps.{
  Event, subscribes, unsubscribes, receives, outputs, ends, exits, closes, receive,
}
use claude_squad_ide.Pty.Session.Steps
use claude_squad_ide.Ssh.Session.{
  SshSession, subscribe, unsubscribe, feed_output, drop_subscribers, process_exit, close,
  with_chans,
}

-- The local session that a remote one is streamed like.
abbrev pub as_local : SshSession → Session
as_local s = record {
  id = s.id;
  closed = s.closed;
  monitor = s.monitor;
  subscribers = s.subscribers;
  exited = s.exited;
  chans = s.chans;
  next_sub = s.next_sub;
}

abbrev pub all_local : Option SshSession → Option Session
all_local none = none
all_local (some s) = some (as_local s)

-- A client receives from the channels of both in one way.
unfoldable pub ssh_step : Event → SshSession → Option SshSession
unfolding subscribe unsubscribe feed_output drop_subscribers process_exit close
ssh_step subscribes s = some (subscribe s).1
ssh_step (unsubscribes p) s = some (unsubscribe p s)
ssh_step (receives p) s = some (record s { chans = (receive p (as_local s)).chans })
ssh_step (outputs data_) s = feed_output data_ s
ssh_step ends s = drop_subscribers s
ssh_step exits s = some (process_exit s)
ssh_step closes s = (close s).1

unfoldable pub ssh_run : List Event → SshSession → Option SshSession
unfolding ssh_step
ssh_run [] s = some s
ssh_run (e ∷ es) s = elim (ssh_step e s) [ none ↦ none | some s' ↦ ssh_run es s' ]

all_local-with_chans :
    (s : SshSession) (o : Option (ℕ → Channel))
    → all_local (with_chans s o) ≡ Session.with_chans (as_local s) o
all_local-with_chans s none = refl
all_local-with_chans s (some h) = refl

drop_subscribers-as_local :
    (s : SshSession) → all_local (drop_subscribers s) ≡ Session.drop_subscribers (as_local s)
unfolding drop_subscribers Session.drop_subscribers
drop_subscribers-as_local s =
    all_local-with_chans (record s { subscribers = [] })
      (Session.for_each Session.close_channel s.subscribers s.chans)

close-as_local : (s : SshSession) → all_local (close s).1 ≡ Session.close (as_local s)
unfolding close Session.close
close-as_local s = elim (Bool-cases s.closed) [
  | inl e ↦ rw e refl
  | inr e ↦ rw e (drop_subscribers-as_local (record s { closed = true }))
]

ssh_step-as_local :
    (e : Event) (s : SshSession) → all_local (ssh_step e s) ≡ Steps.step e (as_local s)
unfolding ssh_step Steps.step
ssh_step-as_local subscribes s = unfold subscribe Session.subscribe in refl
ssh_step-as_local (unsubscribes p) s = unfold unsubscribe Session.unsubscribe in refl
ssh_step-as_local (receives p) s = unfold receive in refl
ssh_step-as_local (outputs data_) s =
    unfold feed_output Session.output Session.broadcast in
    all_local-with_chans (record s { monitor = Monitor.write s.monitor data_ })
      (Session.for_each (λ c. Session.send c data_) s.subscribers s.chans)
ssh_step-as_local ends s = drop_subscribers-as_local s
ssh_step-as_local exits s = unfold process_exit Session.process_exit in refl
ssh_step-as_local closes s = close-as_local s

abbrev then_run : List Event → Option Session → Option Session
then_run es none = none
then_run es (some s) = Steps.run es s

then_ssh_run :
    (es : List Event) (o : Option SshSession)
    → ((s : SshSession) → all_local (ssh_run es s) ≡ Steps.run es (as_local s))
    → all_local (elim o [ none ↦ none | some s ↦ ssh_run es s ]) ≡ then_run es (all_local o)
then_ssh_run es none ih = refl
then_ssh_run es (some s) ih = ih s

-- In any sequence of subscriptions, departures, receipts, outputs, ends of output, exits and
-- closings a remote session changes, or panics, exactly as a local one in the same state does.
pub ssh_run-as_local :
    (es : List Event) (s : SshSession) → all_local (ssh_run es s) ≡ Steps.run es (as_local s)
unfolding ssh_run Steps.run
ssh_run-as_local [] s = refl
ssh_run-as_local (e ∷ es) s =
    then_ssh_run es (ssh_step e s) (ssh_run-as_local es) ∙ ap (then_run es) (ssh_step-as_local e s)
