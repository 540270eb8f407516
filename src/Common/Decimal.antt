-- ===== src/Common/Decimal.antt =====
-- Decimal formatting of a non-negative number (`%d` of fmt), and the number a run of digits names.
use tr_engine.Common.Tests.{if◌then◌else◌, ltb, Bool-cases}
use tr_engine.Common.Bytes.{Text, bytes}
use Prim.Native.Nat.{ℕ, zero, suc, ◌+◌, ◌-◌, ◌*◌, ◌/◌, ◌%◌, ◌<◌, ◌≤◌}
use mathlib.Core.Path.{◌≡◌, refl}
use mathlib.Core.Logic.{inl, inr}
use mathlib.Core.List.{[], ◌∷◌, ◌++◌}
use native.Mathlib.Omega.{arith}

-- One digit for each round; a number has at most as many digits as its value, plus one.
unfoldable pub digits_fuel : ℕ → ℕ → Text
digits_fuel zero n = []
digits_fuel (suc f) n =
    let more = digits_fuel f (n / 10) ++ (b'0' + n % 10) ∷ [] in
    if ltb n 10 then (b'0' + n) ∷ [] else more

unfoldable pub decimal : ℕ → Text
unfolding digits_fuel
decimal n = digits_fuel (n + 1) n

unfoldable pub number_from : ℕ → Text → ℕ
number_from v [] = v
number_from v (c ∷ s) = number_from (v * 10 + (c - b'0')) s

pub number_from-append :
    (v : ℕ) (s t : Text) → number_from v (s ++ t) ≡ number_from (number_from v s) t
unfolding number_from
number_from-append v [] t = refl
number_from-append v (c ∷ s) t = number_from-append (v * 10 + (c - b'0')) s t

number_from-digits : (f n : ℕ) → n < f → number_from 0 (digits_fuel f n) ≡ n
unfolding digits_fuel number_from
number_from-digits zero n h = absurd (omega arith)
number_from-digits (suc f) n h = elim (Bool-cases (ltb n 10)) [
  | inl small ↦ rw small (omega arith)
  | inr large ↦
      rw (large, number_from-append 0 (digits_fuel f (n / 10)))
        (ground (arith, number_from-digits f (n / 10)))
]

-- Reading back a formatted number gives the number.
pub number_from-decimal : (n : ℕ) → number_from 0 (decimal n) ≡ n
unfolding decimal
number_from-decimal n = number_from-digits (n + 1) n (omega arith)

abbrev pub AllDigits : Text → Type 0
AllDigits [] = Unit {0}
AllDigits (c ∷ s) = (b'0' ≤ c) × (c ≤ b'9') × AllDigits s

AllDigits-append : (s t : Text) → AllDigits s → AllDigits t → AllDigits (s ++ t)
AllDigits-append [] t p q = q
AllDigits-append (c ∷ s) t p q = (p.0, p.1, AllDigits-append s t p.2 q)

digits_fuel-AllDigits : (f n : ℕ) → AllDigits (digits_fuel f n)
unfolding digits_fuel
digits_fuel-AllDigits zero n = tt
digits_fuel-AllDigits (suc f) n = elim (Bool-cases (ltb n 10)) [
  | inl small ↦ rw small (ground arith)
  | inr large ↦ rw large (AllDigits-append _ _ (digits_fuel-AllDigits f (n / 10)) (omega arith))
]

pub decimal-AllDigits : (n : ℕ) → AllDigits (decimal n)
unfolding decimal
decimal-AllDigits n = digits_fuel-AllDigits (n + 1) n

decimal_runs : decimal 10203 ≡ bytes "10203"
unfolding decimal
decimal_runs = refl
