-- ===== src/Ssh/Client/Keepalive.antt =====
-- ssh/client.go: the goroutine of keepaliveLoop, beside which the program may call Close.
--
-- The goroutine waits on the ticker and on the channel that the client had when the wait began; the
-- random choice of `select`, and when Close comes, are steps of a relation.
use claude_squad_ide.Base.{
  ℕ, zero, suc, ◌+◌, ◌≤◌, ◌<◌, ◌==◌, ◌≡◌, ◌≢◌, refl, sym, ◌∙◌, Bool, true, false, Option, none,
  some, Text, [], arith, subst, ap, ◌⊎◌, inl, inr, Bool-cases, if◌then◌else◌,
}

-- Where the goroutine is: before its first `select`, in `select`, in SendRequest, in the callback, or
-- past its return.
pub data Place : Type 0 where
  waiting : Option ℕ → Place
  starting asking calling ended : Place

-- The client's fields that both use, whether its connection is closed, which channels are closed, and
-- how often the callback was called.
pub record Alive : Type 0 where
  pub place : Place
  pub connected : Bool
  pub last_err : Option Text
  pub stop_keepalive : Option ℕ
  pub connection_closed : Bool
  pub stopped : ℕ → Bool
  pub has_callback : Bool
  pub calls : ℕ

-- As `go c.keepaliveLoop()` leaves it, with `stop` the new channel, which the goroutine has not read.
abbrev pub started : ℕ → Bool → Alive
started stop has_callback = record {
  place = starting;
  connected = true;
  last_err = none;
  stop_keepalive = some stop;
  connection_closed = false;
  stopped = λ c. false;
  has_callback = has_callback;
  calls = 0;
}

abbrev pub stop_channel : Option ℕ → (ℕ → Bool) → ℕ → Bool
stop_channel none stopped c = stopped c
stop_channel (some d) stopped c = if c == d then true else stopped c

unfoldable pub close : Alive → Alive
close s = record s {
  connected = false;
  stop_keepalive = none;
  connection_closed = true;
  stopped = stop_channel s.stop_keepalive s.stopped;
}

-- A request on a closed connection is not answered.
unfoldable pub failed : Text → Alive → Alive
failed e s = record s {
  place = if s.has_callback then calling else ended;
  connected = false;
  last_err = some e;
}

-- The goroutine's own steps.
pub data Own : Alive → Alive → Type 0 where
  begins : (s : Alive) → s.place ≡ starting → Own s (record s { place = waiting s.stop_keepalive })
  ticks : (s : Alive) (c : Option ℕ) → s.place ≡ waiting c → Own s (record s { place = asking })
  stops :
      (s : Alive) (c : ℕ)
      → s.place ≡ waiting (some c)
      → s.stopped c ≡ true
      → Own s (record s { place = ended })
  answers :
      (s : Alive)
      → s.place ≡ asking
      → s.connection_closed ≡ false
      → Own s (record s { place = waiting s.stop_keepalive })
  fails : (s : Alive) (e : Text) → s.place ≡ asking → Own s (failed e s)
  calls_back :
      (s : Alive) → s.place ≡ calling → Own s (record s { place = ended; calls = suc s.calls })

pub data Step : Alive → Alive → Type 0 where
  own : {s t : Alive} → Own s t → Step s t
  closes : (s : Alive) → Step s (close s)

pub data Reach (s : Alive) : Alive → Type 0 where
  here : Reach s s
  next : {t u : Alive} → Reach s t → Step t u → Reach s u

-- The callback is called once at most, as the last thing, and not before the client says that it has
-- lost its connection and why.
abbrev pub Told : Place → Alive → Type 0
Told starting s = s.calls ≡ 0
Told (waiting c) s = s.calls ≡ 0
Told asking s = s.calls ≡ 0
Told calling s = (s.calls ≡ 0) × (s.connected ≡ false) × (s.last_err ≢ none)
Told ended s = (s.calls ≤ 1) × (s.calls ≡ 0 ⊎ ((s.connected ≡ false) × (s.last_err ≢ none)))

abbrev pub IsTold : Alive → Type 0
IsTold s = Told s.place s

at_place : (s : Alive) (p : Place) → s.place ≡ p → IsTold s → Told p s
at_place s p e h = subst (λ q. Told q s) e h

failed-IsTold : (e : Text) (s : Alive) → s.calls ≡ 0 → IsTold (failed e s)
unfolding failed
failed-IsTold e s h = elim (Bool-cases s.has_callback) [
  | inl b ↦
      subst (λ (x : Bool). Told (if x then calling else ended) (failed e s)) (sym b)
        (h, refl, λ q. cc)
  | inr b ↦
      subst (λ (x : Bool). Told (if x then calling else ended) (failed e s)) (sym b)
        (omega (arith, h), inl h)
]

close-Told : (p : Place) (s : Alive) → Told p s → Told p (close s)
unfolding close
close-Told starting s h = h
close-Told (waiting c) s h = h
close-Told asking s h = h
close-Told calling s h = (h.0, refl, h.2)
close-Told ended s (h, inl z) = (h, inl z)
close-Told ended s (h, inr (c, l)) = (h, inr (refl, l))

close-IsTold : (s : Alive) → IsTold s → IsTold (close s)
unfolding close
close-IsTold s h = close-Told s.place s h

Own-IsTold : {s t : Alive} → Own s t → IsTold s → IsTold t
Own-IsTold (begins s e) h = at_place s starting e h
Own-IsTold (ticks s c e) h = at_place s (waiting c) e h
Own-IsTold (stops s c e d) h =
    let z = at_place s (waiting (some c)) e h in (omega (arith, z), inl z)
Own-IsTold (answers s e o) h = at_place s asking e h
Own-IsTold (fails s m e) h = failed-IsTold m s (at_place s asking e h)
Own-IsTold (calls_back s e) h =
    let z = at_place s calling e h in (omega (arith, z.0), inr (z.1, z.2))

-- From the start of the goroutine, with the program calling Close at any times, the callback is
-- called once at most, when the goroutine then ends, and only after the client has lost its
-- connection and holds the error.
pub Reach-IsTold : {stop : ℕ} {cb : Bool} {s : Alive} → Reach (started stop cb) s → IsTold s
Reach-IsTold here = refl
Reach-IsTold (next r (own o)) = Own-IsTold o (Reach-IsTold r)
Reach-IsTold (next r (closes s)) = close-IsTold s (Reach-IsTold r)

-- How many steps the goroutine has left, once the connection is closed.
abbrev pub left : Place → ℕ
left starting = 4
left (waiting c) = 3
left asking = 2
left calling = 1
left ended = 0

-- A run of the goroutine alone, of so many steps.
pub data OwnRun (s : Alive) : ℕ → Alive → Type 0 where
  rests : OwnRun s zero s
  moves : {n : ℕ} {t u : Alive} → OwnRun s n t → Own t u → OwnRun s (suc n) u

left_at : (s : Alive) (p : Place) → s.place ≡ p → left s.place ≡ left p
left_at s p e = ap left e

Own-left :
    {s t : Alive}
    → Own s t
    → s.connection_closed ≡ true
    → (left t.place < left s.place) × (t.connection_closed ≡ true)
unfolding failed
Own-left (begins s e) h = (omega (arith, left_at s starting e), h)
Own-left (ticks s c e) h = (omega (arith, left_at s (waiting c) e), h)
Own-left (stops s c e d) h = (omega (arith, left_at s (waiting (some c)) e), h)
Own-left (answers s e o) h = absurd (ground (arith, sym h ∙ o))
Own-left (fails s m e) h = (ground (arith, left_at s asking e), h)
Own-left (calls_back s e) h = (omega (arith, left_at s calling e), h)

OwnRun-left :
    {s : Alive} {n : ℕ} {t : Alive}
    → OwnRun s n t
    → s.connection_closed ≡ true
    → (n + left t.place ≤ left s.place) × (t.connection_closed ≡ true)
OwnRun-left rests h = (omega arith, h)
OwnRun-left (moves r o) h =
    let ih = OwnRun-left r h in let st = Own-left o ih.1 in (omega (arith, ih.0, st.0), st.1)

-- The bound on its steps after Close, by where it is then.
abbrev pub at_most : Place → ℕ
at_most starting = 4
at_most (waiting c) = 3
at_most asking = 3
at_most calling = 3
at_most ended = 3

left-le : (p : Place) → left p ≤ at_most p
left-le starting = omega arith
left-le (waiting c) = omega arith
left-le asking = omega arith
left-le calling = omega arith
left-le ended = omega arith

moves_on : (s : Alive) (p : Place) → s.place ≡ p → (p ≡ ended) ⊎ ((t : Alive) × Own s t)
moves_on s starting e = inr (record s { place = waiting s.stop_keepalive }, begins s e)
moves_on s (waiting c) e = inr (record s { place = asking }, ticks s c e)
moves_on s asking e = inr (failed [] s, fails s [] e)
moves_on s calling e = inr (record s { place = ended; calls = suc s.calls }, calls_back s e)
moves_on s ended e = inl refl

-- After Close, the goroutine makes three more steps at most, or four if it had not begun, and where it
-- stops it has ended: it never waits for good.
pub close-ends :
    (s : Alive) {n : ℕ} {t : Alive}
    → OwnRun (close s) n t
    → (n ≤ at_most s.place) × ((t.place ≡ ended) ⊎ ((u : Alive) × Own t u))
unfolding close
close-ends s {n} {t} r =
    (omega (arith, (OwnRun-left r refl).0, left-le s.place), moves_on t t.place refl)
