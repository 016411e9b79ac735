-- ===== src/Threshold/Rational.antt =====
-- The exact rationals of packages/cesr/src/primitives/tholder.ts. Every rational there comes from a
-- weight in [0, 1], from 0, 1 or a sum of such, so numerator and denominator are natural numbers.
use mathlib.Core.WellFounded.{Acc}
use keri_ts.Prelude.{
  ℕ, zero, suc, ◌+◌, ◌*◌, ◌/◌, ◌%◌, ◌<◌, Bool, ◌≡◌, refl, arith, leb, ◌==◌, if◌then◌else◌,
}
use keri_ts.Prelude.Order.{lt_wf}
use keri_ts.Prelude.Result.{Result, ok, err}
use keri_ts.Threshold.Error.{ThresholdError, zero_denominator}
pub mod Laws

pub record Rational : Type 0 where
  pub numerator : ℕ
  pub denominator : ℕ

pub mod-lt-suc : (left right : ℕ) → left % suc right < suc right
mod-lt-suc left right = omega arith

-- `while (right !== 0n) { next = left % right; left = right; right = next }`
unfoldable pub gcd_loop : (left right : ℕ) → Acc ◌<◌ right → ℕ
gcd_loop left zero w = left
gcd_loop left (suc right) (Acc.intro _ smaller) =
    gcd_loop (suc right) (left % suc right) (smaller (left % suc right) (mod-lt-suc left right))

unfoldable pub gcd : ℕ → ℕ → ℕ
unfolding gcd_loop lt_wf
gcd a b = let left = gcd_loop a b (lt_wf.apply b) in if left == 0 then 1 else left

-- The negative denominator of the source does not occur.
unfoldable pub normalize_rational : ℕ → ℕ → Result ThresholdError Rational
unfolding gcd
normalize_rational numerator denominator =
    if denominator == 0
    then err zero_denominator
    else let divisor = gcd numerator denominator in
      ok (record { numerator = numerator / divisor; denominator = denominator / divisor })

unfoldable pub add_rationals : Rational → Rational → Result ThresholdError Rational
unfolding normalize_rational
add_rationals left right =
    normalize_rational (left.numerator * right.denominator + right.numerator * left.denominator)
      (left.denominator * right.denominator)

-- `if (counted) sum = addRationals(sum, weight)`
unfoldable pub add_if : Bool → Rational → Rational → Result ThresholdError Rational
unfolding add_rationals
add_if counted sum weight = if counted then add_rationals sum weight else ok sum

-- `compareRationals(value, one) >= 0`, by cross-multiplication
unfoldable pub at_least_one : Rational → Bool
at_least_one value = leb (1 * value.denominator) (value.numerator * 1)

abbrev pub rational_zero : Rational
rational_zero = record { numerator = 0; denominator = 1 }

abbrev pub rational_one : Rational
rational_one = record { numerator = 1; denominator = 1 }

half_and_third :
    add_rationals
      (record { numerator = 1; denominator = 2 })
      (record { numerator = 2; denominator = 4 })
    ≡ ok rational_one
unfolding add_rationals
half_and_third = refl
