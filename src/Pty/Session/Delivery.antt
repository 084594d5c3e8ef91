-- ===== src/Pty/Session/Delivery.antt =====
-- pty/manager.go, type Session: who receives what, and whose channel is closed.
use claude_squad_ide.Base.{ℕ, ◌≡◌, refl, true, false, [], some, arith, Text, if◌then◌else◌}
use claude_squad_ide.Pty.Session.{Session, subscribe, broadcast, close}
use claude_squad_ide.Pty.Session.Steps.{IsSound, member, sent, broadcast-run, drop_subscribers-run}

-- A broadcast to a sound session succeeds. Afterwards each subscriber's channel has the data at its
-- end if fewer than 256 messages wait in it, and is as before if it is full; the channel of anyone
-- else is as before.
pub broadcast-delivers :
    (data_ : Text) (s : Session)
    → IsSound s
    → (s' : Session) × (broadcast data_ s ≡ some s')
      × ((q : ℕ)
          → s'.chans q ≡ (if member q s.subscribers then sent data_ (s.chans q) else s.chans q))
broadcast-delivers data_ s v =
    let r = broadcast-run data_ s v in (record s { chans = r.0 }, r.1, r.2)

-- Closing a sound session that is not closed succeeds, leaves it closed and with no subscriber, and
-- closes the channel of each former one, which keeps what waits in it.
pub close-closes :
    (s : Session)
    → IsSound s
    → s.closed ≡ false
    → (s' : Session) × (close s ≡ some s')
      × (s'.closed ≡ true)
      × (s'.subscribers ≡ [])
      × ((q : ℕ)
          → member q s.subscribers ≡ true
          → ((s'.chans q).is_open ≡ false) × ((s'.chans q).queue ≡ (s.chans q).queue))
unfolding close
close-closes s v e =
    let r = drop_subscribers-run (record s { closed = true }) v in
    (
      record s { closed = true; subscribers = []; chans = r.0 },
      rw (e, r.1) refl,
      refl,
      refl,
      λ q h. rw (r.2 q) (ground arith),
    )

-- Who subscribes to a session that is closed already, as it is once its process has exited, gets an
-- open channel, and closing the session then changes nothing: the channel stays open.
pub close-subscribe_late :
    (s : Session)
    → s.closed ≡ true
    → (close (subscribe s).1 ≡ some (subscribe s).1)
      × (((subscribe s).1.chans (subscribe s).0).is_open ≡ true)
unfolding close subscribe
close-subscribe_late s e = ground arith
