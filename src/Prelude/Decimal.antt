-- ===== src/Prelude/Decimal.antt =====
-- `strconv.Itoa` and `strconv.FormatUint(n, 10)` of a number that is not negative.
use Prim.Native.Nat.{ℕ, zero, suc, ◌+◌, ◌-◌, ◌*◌, ◌/◌, ◌%◌, ◌<◌}
use mathlib.Core.Path.{◌≡◌, sym, ap, ◌∙◌}
use mathlib.Core.List.{[], ◌∷◌}
use mathlib.Core.Logic.{inl, inr}
use native.Mathlib.Omega.{arith}
use go_mutants.Prelude.Tests.{Bytes, ltb, if◌then◌else◌, Bool-cases}

-- Digits from the last to the first; one round of fuel for each.
digits_from : ℕ → ℕ → Bytes → Bytes
digits_from zero n acc = acc
digits_from (suc fuel) n acc =
    let rest = digits_from fuel (n / 10) ((48 + n % 10) ∷ acc) in
    if ltb n 10 then (48 + n) ∷ acc else rest

-- The digits of `n` are at most `n + 1`.
unfoldable pub itoa : ℕ → Bytes
unfolding digits_from
itoa n = digits_from (suc n) n []

value_from : ℕ → Bytes → ℕ
value_from v [] = v
value_from v (d ∷ ds) = value_from (v * 10 + (d - 48)) ds

value_from-digits_from :
    (fuel n : ℕ) (acc : Bytes) → n < fuel → value_from 0 (digits_from fuel n acc) ≡ value_from n acc
unfolding value_from digits_from
value_from-digits_from zero n acc h = absurd (omega arith)
value_from-digits_from (suc fuel) n acc h = elim (Bool-cases (ltb n 10)) [
  | inl small ↦ rw small (ap (λ v. value_from v acc) (omega arith))
  | inr large ↦ rw large (
      value_from-digits_from fuel (n / 10) ((48 + n % 10) ∷ acc) (ground arith)
      ∙ ap (λ v. value_from v acc) (omega arith))
]

value_from-itoa : (n : ℕ) → value_from 0 (itoa n) ≡ n
unfolding itoa value_from
value_from-itoa n = value_from-digits_from (suc n) n [] (omega arith)

-- Two numbers with one text are one number.
pub itoa-injective : (m n : ℕ) → itoa m ≡ itoa n → m ≡ n
itoa-injective m n e = sym (value_from-itoa m) ∙ (ap (value_from 0) e ∙ value_from-itoa n)
