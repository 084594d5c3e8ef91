-- ===== src/Session/Git/Retry.antt =====
-- session/git/executor_timeout.go: a command under a time limit, tried again if that runs out.
use claude_squad_ide.Base.{
  ℕ, zero, suc, ◌+◌, ◌≤◌, ◌<◌, max, ◌≡◌, refl, Bool, true, false, Text, [], ◌∙◌, Option, none, some,
  ltb, arith, if◌then◌else◌,
}

-- What one run of the command gives: its output, or its output and an error. `timed_out` is an error
-- that wraps ErrCommandTimeout.
pub data Attempt : Type 0 where
  succeeded : Text → Attempt
  timed_out : Text → Attempt
  failed : Text → Text → Attempt

pub data Executor : Type 0 where
  local remote other : Executor

-- The error of a run, if any.
pub data Failure : Type 0 where
  timeout : Failure
  because : Text → Failure

-- A run that is not retried: the output and the error as they are.
abbrev pub outcome : Attempt → Text × Option Failure
outcome (succeeded out) = (out, none)
outcome (timed_out out) = (out, some timeout)
outcome (failed out e) = (out, some (because e))

-- After an attempt: the next one if the time ran out, else what it gave.
abbrev pub or_else : Attempt → Text × Option Failure → Text × Option Failure
or_else (succeeded out) next = (out, none)
or_else (timed_out out) next = next
or_else (failed out e) next = (out, some (because e))

-- `for i := 0; i < attempts; i++`, from `i` on, with `n` rounds to go; `last` is the last error.
-- `run i` is what attempt `i` gives.
unfoldable pub retry : (ℕ → Attempt) → ℕ → ℕ → Option Failure → Text × Option Failure
retry run zero i last = ([], last)
retry run (suc n) i last = or_else (run i) (retry run n (i + 1) (some timeout))

-- `attempts` is the number asked for, a negative one being 0.
unfoldable pub run_command_with_timeout : Executor → ℕ → (ℕ → Attempt) → Text × Option Failure
unfolding retry
run_command_with_timeout local attempts run =
    retry run (if ltb attempts 1 then 1 else attempts) 0 none
run_command_with_timeout remote attempts run = outcome (run 0)
run_command_with_timeout other attempts run = outcome (run 0)

abbrev pub is_timeout : Attempt → Bool
is_timeout (timed_out out) = true
is_timeout _ = false

or_else-decided :
    (a : Attempt) (next : Text × Option Failure) → is_timeout a ≡ false → or_else a next ≡ outcome a
or_else-decided (succeeded out) next h = refl
or_else-decided (timed_out out) next h = cc
or_else-decided (failed out e) next h = refl

or_else-timeout :
    (a : Attempt) (next : Text × Option Failure) → is_timeout a ≡ true → or_else a next ≡ next
or_else-timeout (succeeded out) next h = cc
or_else-timeout (timed_out out) next h = refl
or_else-timeout (failed out e) next h = cc

module _ (run : ℕ → Attempt) where
  retry-decided :
      (k n i m : ℕ) (last : Option Failure)
      → i + k ≡ m
      → k < n
      → ((j : ℕ) → i ≤ j → j < m → is_timeout (run j) ≡ true)
      → is_timeout (run m) ≡ false
      → retry run n i last ≡ outcome (run m)
  unfolding retry
  retry-decided k zero i m last e h before at = absurd (omega arith)
  retry-decided zero (suc n) i m last e h before at =
      let p : i ≡ m = omega arith in rw p (or_else-decided (run m) _ at)
  retry-decided (suc k) (suc n) i m last e h before at =
      or_else-timeout (run i) _ (before i (omega arith) (omega arith))
      ∙ retry-decided k n (i + 1) m (some timeout) (omega arith) (omega arith)
          (λ j low high. before j (omega (arith, low)) high) at

  retry-timeout :
      (n i m : ℕ)
      → i + n ≡ m
      → ((j : ℕ) → i ≤ j → j < m → is_timeout (run j) ≡ true)
      → retry run n i (some timeout) ≡ ([], some timeout)
  unfolding retry
  retry-timeout zero i m e all = refl
  retry-timeout (suc n) i m e all =
      or_else-timeout (run i) _ (all i (omega arith) (omega arith))
      ∙ retry-timeout n (i + 1) m (omega arith) (λ j low high. all j (omega (arith, low)) high)

  retry-timeout_first :
      (n : ℕ) (last : Option Failure)
      → 0 < n
      → ((j : ℕ) → j < n → is_timeout (run j) ≡ true)
      → retry run n 0 last ≡ ([], some timeout)
  unfolding retry
  retry-timeout_first zero last h all = absurd (omega arith)
  retry-timeout_first (suc n) last h all =
      or_else-timeout (run 0) _ (all 0 (omega arith))
      ∙ retry-timeout n 1 (suc n) (omega arith) (λ j low high. all j high)

  -- A local command that is given a number of attempts, none counting as one. If an attempt within
  -- that number does not time out and all before it do, the result is what that attempt gave; if all
  -- of them time out, it is the timeout error with no output.
  pub run_command_with_timeout_lem :
      (attempts : ℕ)
      → ((k : ℕ)
          → k < max 1 attempts
          → ((j : ℕ) → j < k → is_timeout (run j) ≡ true)
          → is_timeout (run k) ≡ false
          → run_command_with_timeout local attempts run ≡ outcome (run k))
        × (((j : ℕ) → j < max 1 attempts → is_timeout (run j) ≡ true)
            → run_command_with_timeout local attempts run ≡ ([], some timeout))
  unfolding run_command_with_timeout
  run_command_with_timeout_lem attempts =
      let n = if ltb attempts 1 then 1 else attempts in
      let e : n ≡ max 1 attempts = ground arith in
      (
        λ k h before at.
            retry-decided k n 0 k none (omega arith) (omega (arith, e))
              (λ j low high. before j high) at,
        λ all. retry-timeout_first n none (omega (arith, e)) (λ j h. all j (omega (arith, e))),
      )
