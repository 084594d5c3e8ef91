-- ===== src/Pty/Session/Steps.antt =====
-- pty/manager.go, type Session: no interleaving of the goroutines that use a session panics.
use claude_squad_ide.Base.{
  ℕ, suc, ◌<◌, ◌≡◌, ◌≢◌, refl, Bool, true, false, inl, inr, List, [], ◌∷◌, ◌++◌, Option, none, some,
  arith, Text, All, any, keep, length, ◌==◌, ltb, Bool-cases, if◌then◌else◌,
}
use claude_squad_ide.Pty.Monitor.{Monitor}
use claude_squad_ide.Pty.Monitor
use claude_squad_ide.Pty.Session.{
  Channel, Session, update, new_session, subscribe, unsubscribe, send, close_channel, for_each,
  broadcast, drop_subscribers, output, process_exit, close, channel_cap,
}

-- The pointers are different, below `n`, and their channels are open.
abbrev pub Live : List ℕ → (ℕ → Channel) → ℕ → Type 0
Live [] h n = Unit {0}
Live (p ∷ ps) h n = (p < n) × ((h p).is_open ≡ true) × All (λ q. q ≢ p) ps × Live ps h n

abbrev pub member : ℕ → List ℕ → Bool
member q ps = any (λ p. p == q) ps

Live-update :
    (ps : List ℕ) (h : ℕ → Channel) (n p : ℕ) (c : Channel)
    → All (λ q. q ≢ p) ps
    → Live ps h n
    → Live ps (update h p c) n
Live-update [] h n p c a l = tt
Live-update (q ∷ ps) h n p c a l = (l.0, ground arith, l.2, Live-update ps h n p c a.1 l.3)

not-member : (ps : List ℕ) (p : ℕ) → All (λ q. q ≢ p) ps → member p ps ≡ false
not-member [] p a = refl
not-member (q ∷ ps) p a = ground (arith, not-member ps p a.1)

-- A loop over live subscribers runs to its end and changes the channels of just those.
pub for_each-run :
    (f : Channel → Option Channel) (g : Channel → Channel)
    → ((c : Channel) → c.is_open ≡ true → f c ≡ some (g c))
    → (ps : List ℕ) (h : ℕ → Channel) (n : ℕ) → Live ps h n
    → (h' : ℕ → Channel) × (for_each f ps h ≡ some h')
      × ((q : ℕ) → h' q ≡ (if member q ps then g (h q) else h q))
unfolding for_each
for_each-run f g fg [] h n l = (h, refl, λ q. refl)
for_each-run f g fg (p ∷ ps) h n l =
    let ih =
      for_each-run f g fg ps (update h p (g (h p))) n (Live-update ps h n p (g (h p)) l.2 l.3) in
    (ih.0, rw (fg (h p) l.1, for_each) ih.1, λ q. ground (arith, ih.2 q, not-member ps p l.2))

-- What holds of a session between two steps.
abbrev pub IsSound : Session → Type 0
IsSound s = Live s.subscribers s.chans s.next_sub

Live-same :
    (ps : List ℕ) (h h' : ℕ → Channel) (n : ℕ)
    → ((q : ℕ) → (h q).is_open ≡ true → (h' q).is_open ≡ true)
    → Live ps h n
    → Live ps h' n
Live-same [] h h' n e l = tt
Live-same (p ∷ ps) h h' n e l = (l.0, e p l.1, l.2, Live-same ps h h' n e l.3)

Live-next :
    (ps : List ℕ) (h : ℕ → Channel) (n : ℕ) (c : Channel)
    → Live ps h n
    → Live ps (update h n c) (suc n) × All (λ q. q ≢ n) ps
Live-next [] h n c l = (tt, tt)
Live-next (p ∷ ps) h n c l =
    let ih = Live-next ps h n c l.3 in
    ((omega (arith, l.0), ground (arith, l.0, l.1), l.2, ih.0), (omega (arith, l.0), ih.1))

All-keep : (P : ℕ → Type 0) (t : ℕ → Bool) (ps : List ℕ) → All P ps → All P (keep t ps)
All-keep P t [] a = tt
All-keep P t (p ∷ ps) a = elim (Bool-cases (t p)) [
  | inl e ↦ rw e (a.0, All-keep P t ps a.1)
  | inr e ↦ rw e (All-keep P t ps a.1)
]

Live-keep :
    (t : ℕ → Bool) (ps : List ℕ) (h : ℕ → Channel) (n : ℕ) → Live ps h n → Live (keep t ps) h n
Live-keep t [] h n l = tt
Live-keep t (p ∷ ps) h n l = elim (Bool-cases (t p)) [
  | inl e ↦ rw e (l.0, l.1, All-keep _ t ps l.2, Live-keep t ps h n l.3)
  | inr e ↦ rw e (Live-keep t ps h n l.3)
]

-- What an open channel becomes.
abbrev pub sent : Text → Channel → Channel
sent data_ c =
    if ltb (length c.queue) channel_cap then record c { queue = c.queue ++ data_ ∷ [] } else c

send-sent : (data_ : Text) (c : Channel) → c.is_open ≡ true → send c data_ ≡ some (sent data_ c)
unfolding send
send-sent data_ c h = rw h

close_channel-open :
    (c : Channel) → c.is_open ≡ true → close_channel c ≡ some (record c { is_open = false })
unfolding close_channel
close_channel-open c h = rw h

-- The oldest element is taken off a channel.
unfoldable pub receive : ℕ → Session → Session
receive p s = record s { chans = update s.chans p (rest (s.chans p) (s.chans p).queue) }
  where
    rest : Channel → List Text → Channel
    rest c [] = c
    rest c (d ∷ ds) = record c { queue = ds }

-- What the goroutines and the clients of a session do to it, in any order.
pub data Event : Type 0 where
  subscribes : Event
  unsubscribes : ℕ → Event
  receives : ℕ → Event
  outputs : Text → Event
  ends : Event
  exits : Event
  closes : Event

unfoldable pub step : Event → Session → Option Session
unfolding subscribe unsubscribe receive output drop_subscribers process_exit close
step subscribes s = some (subscribe s).1
step (unsubscribes p) s = some (unsubscribe p s)
step (receives p) s = some (receive p s)
step (outputs data_) s = output data_ s
step ends s = drop_subscribers s
step exits s = some (process_exit s)
step closes s = close s

unfoldable pub run : List Event → Session → Option Session
unfolding step
run [] s = some s
run (e ∷ es) s = elim (step e s) [ none ↦ none | some s' ↦ run es s' ]

sent-open : (data_ : Text) (c : Channel) → c.is_open ≡ true → (sent data_ c).is_open ≡ true
sent-open data_ c h = ground arith

pub broadcast-run :
    (data_ : Text) (s : Session)
    → IsSound s
    → (h' : ℕ → Channel) × (broadcast data_ s ≡ some (record s { chans = h' }))
      × ((q : ℕ) → h' q ≡ (if member q s.subscribers then sent data_ (s.chans q) else s.chans q))
unfolding broadcast
broadcast-run data_ s v =
    let r =
      for_each-run (λ c. send c data_) (sent data_) (send-sent data_) s.subscribers s.chans
        s.next_sub v in
    (r.0, rw r.1 refl, r.2)

pub drop_subscribers-run :
    (s : Session)
    → IsSound s
    → (h' : ℕ → Channel) × (drop_subscribers s ≡ some (record s { subscribers = []; chans = h' }))
      × ((q : ℕ)
          → h' q ≡ (
              if member q s.subscribers then record (s.chans q) { is_open = false } else s.chans q))
unfolding drop_subscribers
drop_subscribers-run s v =
    let r =
      for_each-run close_channel (λ c. record c { is_open = false }) close_channel-open
        s.subscribers s.chans s.next_sub v in
    (r.0, rw r.1 refl, r.2)

-- An output leaves a sound session sound, with the same subscribers, each sent the data.
pub output-run :
    (data_ : Text) (s : Session)
    → IsSound s
    → (t : Session) × (output data_ s ≡ some t)
      × IsSound t
      × (t.subscribers ≡ s.subscribers)
      × ((q : ℕ)
          → t.chans q ≡ (if member q s.subscribers then sent data_ (s.chans q) else s.chans q))
unfolding output
output-run data_ s v =
    let t : Session = record s { monitor = Monitor.write s.monitor data_ } in
    let r = broadcast-run data_ t v in
    (
      record t { chans = r.0 },
      r.1,
      Live-same s.subscribers s.chans r.0 s.next_sub
          (λ q o. rw (r.2 q) (ground (arith, sent-open data_ (s.chans q) o))) v,
      refl,
      r.2,
    )

close-IsSound : (s : Session) → IsSound s → (s' : Session) × (close s ≡ some s') × IsSound s'
unfolding close
close-IsSound s v = elim (Bool-cases s.closed) [
  | inl e ↦ (s, rw e refl, v)
  | inr e ↦
      let r = drop_subscribers-run (record s { closed = true }) v in
      (record s { closed = true; subscribers = []; chans = r.0 }, rw (e, r.1) refl, tt)
]

pub subscribe-IsSound : (s : Session) → IsSound s → IsSound (subscribe s).1
unfolding subscribe
subscribe-IsSound s v =
    let l = Live-next s.subscribers s.chans s.next_sub (record { queue = []; is_open = true }) v in
    (omega arith, ground arith, l.1, l.0)

-- Each step of a sound session succeeds and leaves it sound.
pub step-IsSound :
    (e : Event) (s : Session) → IsSound s → (s' : Session) × (step e s ≡ some s') × IsSound s'
unfolding step
step-IsSound subscribes s v = ((subscribe s).1, refl, subscribe-IsSound s v)
step-IsSound (unsubscribes p) s v =
    (unsubscribe p s, refl, unfold unsubscribe in Live-keep _ s.subscribers s.chans s.next_sub v)
step-IsSound (receives p) s v = (
  receive p s,
  refl,
  unfold receive in Live-same s.subscribers s.chans _ s.next_sub (λ q o. ground arith) v,
)
step-IsSound (outputs data_) s v = let r = output-run data_ s v in (r.0, r.1, r.2)
step-IsSound ends s v =
    let r = drop_subscribers-run s v in (record s { subscribers = []; chans = r.0 }, r.1, tt)
step-IsSound exits s v = (process_exit s, refl, unfold process_exit in v)
step-IsSound closes s v = close-IsSound s v

run-IsSound :
    (es : List Event) (s : Session) → IsSound s → (s' : Session) × (run es s ≡ some s') × IsSound s'
unfolding run
run-IsSound [] s v = (s, refl, v)
run-IsSound (e ∷ es) s v =
    let st = step-IsSound e s v in
    let ih = run-IsSound es st.0 st.2 in (ih.0, rw (st.1, run) ih.1, ih.2)

-- From a new session, every sequence of subscriptions, departures, receipts, outputs, the end of the
-- output, the exit of the process and closings runs without a panic: no send on a closed channel and
-- no second close of one.
pub run-new_session :
    (id : Text) (es : List Event) → (s : Session) × (run es (new_session id) ≡ some s) × IsSound s
unfolding new_session
run-new_session id es = run-IsSound es (new_session id) tt
