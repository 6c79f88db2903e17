-- ===== src/Common/Decimal.antt =====
-- Decimal texts are told apart: reading `itoa n` gives `n` back.
use Prim.Native.Nat.{ℕ, zero, suc, ◌+◌, ◌-◌, ◌*◌, ◌/◌, ◌%◌, ◌<◌}
use mathlib.Core.Path.{◌≡◌, sym, ap, ◌∙◌}
use mathlib.Core.Logic.{inl, inr}
use mathlib.Core.List.{[], ◌∷◌}
use native.Mathlib.Omega.{arith}
use kit_go.Common.Tests.{Bool-cases, ltb}
use kit_go.Common.Text.{Str, itoa, itoa_loop}

-- The number whose decimal digits follow those of `acc`.
pub digits_value : ℕ → Str → ℕ
digits_value acc [] = acc
digits_value acc (d ∷ ds) = digits_value (acc * 10 + (d - b'0')) ds

digit_step :
    (n : ℕ) (acc : Str) → digits_value (n / 10) ((b'0' + n % 10) ∷ acc) ≡ digits_value n acc
unfolding digits_value
digit_step n acc = ap (λ t. digits_value t acc) (omega arith)

digits_value-itoa_loop :
    (f n : ℕ) (acc : Str) → n < f → digits_value 0 (itoa_loop f n acc) ≡ digits_value n acc
unfolding itoa_loop
digits_value-itoa_loop zero n acc h = absurd (omega arith)
digits_value-itoa_loop (suc f) n acc h =
    let acc' = (b'0' + n % 10) ∷ acc in
    elim (Bool-cases (ltb n 10)) [
      | inl small ↦
          rw small
            (let none_left : n / 10 ≡ 0 = ground arith in rw (← none_left) (digit_step n acc))
      | inr large ↦
          rw large (digits_value-itoa_loop f (n / 10) acc' (ground arith) ∙ digit_step n acc)
    ]

-- Reading the decimal text of a number gives the number back.
pub digits_value-itoa : (n : ℕ) → digits_value 0 (itoa n) ≡ n
unfolding itoa digits_value
digits_value-itoa n = digits_value-itoa_loop (suc n) n [] (omega arith)

pub itoa_injective : (m n : ℕ) → itoa m ≡ itoa n → m ≡ n
itoa_injective m n e = sym (digits_value-itoa m) ∙ (ap (digits_value 0) e ∙ digits_value-itoa n)
