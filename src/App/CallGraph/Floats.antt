-- ===== src/App/CallGraph/Floats.antt =====
-- app/indexer_callgraph.go: pow, ln and exp on float64, whose arithmetic is a parameter.
use claude_squad_ide.Base.{ℕ, zero, suc, ◌+◌, Bool, ◌||◌, if◌then◌else◌}

pub record Floats (F : Type 0) : Type 0 where
  -- The literal `n / 10 ^ k`: `literal 85 2` is 0.85.
  pub literal : ℕ → ℕ → F
  pub of_nat : ℕ → F
  pub plus : F → F → F
  pub minus : F → F → F
  pub times : F → F → F
  pub over : F → F → F
  pub less : F → F → Bool
  pub same : F → F → Bool

module _ {F : Type 0} (fl : Floats F) where
  -- `for i := 1; i < 20; i += 2`, with `n` rounds to go.
  unfoldable ln_rounds : ℕ → ℕ → F → F → F → F
  ln_rounds zero i term_sq power result = result
  ln_rounds (suc n) i term_sq power result =
      ln_rounds n (i + 2) term_sq (fl.times power term_sq)
        (fl.plus result (fl.over power (fl.of_nat i)))

  unfoldable pub ln : F → F
  unfolding ln_rounds
  ln x =
      let one = fl.of_nat 1 in
      let term = fl.over (fl.minus x one) (fl.plus x one) in
      if fl.less x (fl.of_nat 0) || fl.same x (fl.of_nat 0)
      then fl.of_nat 0
      else fl.times (fl.of_nat 2) (ln_rounds 10 1 (fl.times term term) term (fl.of_nat 0))

  -- `for i := 1; i < 20; i++`, with `n` rounds to go.
  unfoldable exp_rounds : ℕ → ℕ → F → F → F → F
  exp_rounds zero i x term result = result
  exp_rounds (suc n) i x term result =
      let term' = fl.times term (fl.over x (fl.of_nat i)) in
      exp_rounds n (i + 1) x term' (fl.plus result term')

  unfoldable pub exp : F → F
  unfolding exp_rounds
  exp x = exp_rounds 19 1 x (fl.of_nat 1) (fl.of_nat 1)

  unfoldable pub pow : F → F → F
  unfolding ln exp
  pow x y =
      if fl.same y (fl.of_nat 0)
      then fl.of_nat 1
      else if fl.same y (fl.of_nat 1)
      then x
      else if fl.less x (fl.of_nat 0) || fl.same x (fl.of_nat 0)
      then fl.of_nat 0
      else exp (fl.times y (ln x))
