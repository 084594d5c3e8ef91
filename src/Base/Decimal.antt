-- ===== src/Base/Decimal.antt =====
-- `%d` of fmt.Sprintf, and that a number can be read back from it.
use mathlib.Core.Path.{◌≡◌, refl, sym, ap, ◌∙◌}
use mathlib.Core.List.{[], ◌∷◌}
use native.Mathlib.Omega.{arith}
use Prim.Native.Nat.{ℕ, zero, suc, ◌+◌, ◌-◌, ◌*◌, ◌/◌, ◌%◌, ◌<◌}
use mathlib.Core.Bool.{false}
use claude_squad_ide.Base.Lists.{any}
use claude_squad_ide.Base.Tests.{ltb, ◌==◌, if◌then◌else◌}
use claude_squad_ide.Base.Texts.{Text, codes}

-- The digits of `n` in front of `out`; the fuel is a number above `n`.
digits : ℕ → ℕ → Text → Text
digits zero n out = out
digits (suc f) n out =
    let rest = digits f (n / 10) ((b'0' + n % 10) ∷ out) in
    if ltb n 10 then (b'0' + n) ∷ out else rest

unfoldable pub itoa : ℕ → Text
unfolding digits
itoa n = digits (suc n) n []

-- The number that digits spell behind `n`.
value : ℕ → Text → ℕ
value n [] = n
value n (c ∷ s) = value (n * 10 + (c - b'0')) s

value-digits : (f n : ℕ) (out : Text) → n < f → value 0 (digits f n out) ≡ value n out
unfolding value digits
value-digits zero n out h = absurd (omega arith)
value-digits (suc f) n out h = ground (arith, value-digits f (n / 10) ((b'0' + n % 10) ∷ out))

value-itoa : (n : ℕ) → value 0 (itoa n) ≡ n
unfolding itoa
value-itoa n = unfold value in value-digits (suc n) n [] (omega arith)

pub itoa-injective : (n m : ℕ) → itoa n ≡ itoa m → n ≡ m
itoa-injective n m e = sym (value-itoa n) ∙ (ap (value 0) e ∙ value-itoa m)

-- No digit is a dash.
digits-no_dash :
    (f n : ℕ) (out : Text)
    → any (λ c. c == b'-') out ≡ false
    → any (λ c. c == b'-') (digits f n out) ≡ false
unfolding digits
digits-no_dash zero n out h = h
digits-no_dash (suc f) n out h =
    let dash : any (λ c. c == b'-') ((b'0' + n % 10) ∷ out) ≡ false = ground (arith, h) in
    ground (arith, h, digits-no_dash f (n / 10) ((b'0' + n % 10) ∷ out) dash)

pub itoa-no_dash : (n : ℕ) → any (λ c. c == b'-') (itoa n) ≡ false
unfolding itoa
itoa-no_dash n = digits-no_dash (suc n) n [] refl

itoa_4096 : itoa 4096 ≡ codes "4096"
unfolding itoa
itoa_4096 = refl
