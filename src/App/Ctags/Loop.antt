-- ===== src/App/Ctags/Loop.antt =====
-- app/indexer.go: the loop of the indexer, which builds on a ticker and when it is told to.
--
-- The channel `refresh` holds one signal. Each event is one step of the loop or of a caller.
use claude_squad_ide.Base.{ℕ, suc, ◌≤◌, ◌≡◌, Bool, true, false, List, [], ◌∷◌, arith, if◌then◌else◌}

pub data Event : Type 0 where
  refreshes ticks takes cancels : Event

-- `requests` counts the calls of Refresh, and `seen` those made before the last forced build began.
pub record LoopState : Type 0 where
  pub started : Bool
  pub running : Bool
  pub signal : Bool
  pub requests : ℕ
  pub seen : ℕ
  pub forced : ℕ

-- As Start leaves it: it calls Refresh.
abbrev pub begun : LoopState
begun = record {
  started = false;
  running = true;
  signal = true;
  requests = 1;
  seen = 0;
  forced = 0;
}

-- The ticker only counts after the first build, and a build that it starts is not forced.
unfoldable pub loop_step : Event → LoopState → LoopState
loop_step refreshes s = record s { signal = true; requests = suc s.requests }
loop_step ticks s = s
loop_step takes s =
    if s.running
    then (if s.signal
        then record s { started = true; signal = false; seen = s.requests; forced = suc s.forced }
        else s)
    else s
loop_step cancels s = record s { running = false }

unfoldable pub loop_run : List Event → LoopState → LoopState
unfolding loop_step
loop_run [] s = s
loop_run (e ∷ es) s = loop_run es (loop_step e s)

-- A request since the last forced build began has its signal in the channel.
pub record IsHeard (s : LoopState) : Type 0 where
  pub not_ahead : s.seen ≤ s.requests
  pub heard : s.signal ≡ false → s.seen ≡ s.requests

loop_step-IsHeard : (e : Event) (s : LoopState) → IsHeard s → IsHeard (loop_step e s)
unfolding loop_step
loop_step-IsHeard refreshes s v = ground (arith, v.not_ahead)
loop_step-IsHeard ticks s v = v
loop_step-IsHeard takes s v = ground (arith, v.not_ahead, v.heard)
loop_step-IsHeard cancels s v = ground (arith, v.not_ahead, v.heard)

loop_run-IsHeard : (es : List Event) (s : LoopState) → IsHeard s → IsHeard (loop_run es s)
unfolding loop_run
loop_run-IsHeard [] s v = v
loop_run-IsHeard (e ∷ es) s v = loop_run-IsHeard es (loop_step e s) (loop_step-IsHeard e s v)

-- Whenever the loop runs and takes the signal that waits, or finds none, a forced build has begun
-- since the last call of Refresh, however many calls fell together.
pub loop_run-refreshed :
    (es : List Event)
    → (loop_run es begun).running ≡ true
    → (loop_step takes (loop_run es begun)).seen ≡ (loop_run es begun).requests
unfolding loop_step
loop_run-refreshed es r =
    let v = loop_run-IsHeard es begun (record { not_ahead = omega arith; heard = λ e. cc }) in
    ground (arith, v.heard, r)
