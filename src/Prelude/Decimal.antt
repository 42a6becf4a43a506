-- ===== src/Prelude/Decimal.antt =====
-- `str(n)` of a natural number. Each round drops a digit, so the number is fuel enough.
use Prim.Native.Nat.{ℕ, zero, suc, ◌+◌, ◌*◌, ◌-◌, ◌<◌, ◌/◌, ◌%◌}
use native.Mathlib.Omega.{arith}
use mathlib.Core.Path.{◌≡◌, ap, ◌∙◌}
use mathlib.Core.Logic.{inl, inr}
use mathlib.Core.List.{[], ◌∷◌}
use developer_assistant.Prelude.Tests.{if◌then◌else◌, ltb, Bool-cases}
use developer_assistant.Prelude.Text.{Text}

digits : ℕ → ℕ → Text → Text
digits zero n rest = rest
digits (suc fuel) n rest =
    let more = digits fuel (n / 10) ((48 + n % 10) ∷ rest) in
    if ltb n 10 then (48 + n) ∷ rest else more

unfoldable pub decimal : ℕ → Text
unfolding digits
decimal n = digits (suc n) n []

-- The number that a text of digits stands for, after the digits of `n`.
abbrev pub value : ℕ → Text → ℕ
value n [] = n
value n (c ∷ s) = value (n * 10 + (c - 48)) s

value-digits : (fuel n : ℕ) (rest : Text) → n < fuel → value 0 (digits fuel n rest) ≡ value n rest
unfolding digits
value-digits zero n rest h = omega (arith, h)
value-digits (suc fuel) n rest h = elim (Bool-cases (ltb n 10)) [
  | inl e ↦ rw e (ap (λ m. value m rest) (omega arith))
  | inr e ↦ rw e (
      value-digits fuel (n / 10) ((48 + n % 10) ∷ rest) (ground (arith, h, e))
      ∙ ap (λ m. value m rest) (omega arith))
]

-- The fuel is enough: the digits of a number stand for the number.
pub value-decimal : (n : ℕ) → value 0 (decimal n) ≡ n
unfolding decimal
value-decimal n = value-digits (suc n) n [] (omega arith)
