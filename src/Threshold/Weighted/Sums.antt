-- ===== src/Threshold/Weighted/Sums.antt =====
-- Sums of weights as unreduced fractions over one denominator, the product of all: the independent
-- description that the running sums of the code are compared with.
use native.Mathlib.Nat
use keri_ts.Prelude.{
  ℕ, ◌+◌, ◌*◌, ◌≤◌, ◌<◌, Bool, true, false, ◌≡◌, arith, leb, if◌then◌else◌, refl, ap, Bool-cases,
  inl, inr, leb→le,
}
use keri_ts.Prelude.Result.{ok}
use keri_ts.Threshold.Rational.{Rational, add_if, at_least_one, rational_zero}
use keri_ts.Threshold.Rational.Laws.{add-IsReduced}

-- The numerator and the denominator.
abbrev pub Fraction : Type 0
Fraction = ℕ × ℕ

-- One more weight before a sum: it counts only if `counted`, and its denominator always.
abbrev pub weigh : Bool → Rational → Fraction → Fraction
weigh counted w f =
    ((if counted then w.numerator * f.1 else 0) + f.0 * w.denominator, f.1 * w.denominator)

-- The fraction is at least one.
abbrev pub reaches : Fraction → Bool
reaches f = leb f.1 f.0

-- `r` is `start + f`, by cross-multiplication.
pub record IsSum (start : Rational) (f : Fraction) (r : Rational) : Type 0 where
  pub positive : 0 < r.denominator
  pub cross :
      r.numerator * (start.denominator * f.1)
      ≡ (start.numerator * f.1 + f.0 * start.denominator) * r.denominator

-- Adding the first weight and then the rest is adding the whole sum.
pub IsSum-step :
    (counted : Bool) (start w : Rational) (f : Fraction)
    → 0 < start.denominator
    → 0 < w.denominator
    → (next : Rational) × (add_if counted start w ≡ ok next)
      × (0 < next.denominator)
      × ((r : Rational) → IsSum next f r → IsSum start (weigh counted w f) r)
unfolding add_if
IsSum-step false start w f hs hw = (
  start,
  refl,
  hs,
  λ r h. record {
    positive = h.positive;
    cross = omega (arith, ap (λ (t : ℕ). t * w.denominator) h.cross);
  },
)
IsSum-step true start w f hs hw =
    let (next, e, red, value) = add-IsReduced start w hs hw in
    (
      next,
      e,
      red.positive,
      λ r h. record {
        positive = h.positive;
        cross = Nat.eq_of_mul-eq-mul_right next.denominator red.positive _ _ (
            omega (
              arith,
              ap (λ (t : ℕ). t * (start.denominator * w.denominator)) h.cross,
              ap (λ (t : ℕ). t * (f.1 * r.denominator)) value.cross,
            ));
      },
    )

pub IsSum-none : (start : Rational) → 0 < start.denominator → IsSum start (0, 1) start
IsSum-none start h = record { positive = h; cross = omega arith }

-- A sum from zero passes the test of the code exactly if the fraction is at least one.
pub at_least_one-eq-reaches :
    (f : Fraction) (r : Rational) → 0 < f.1 → IsSum rational_zero f r → at_least_one r ≡ reaches f
unfolding at_least_one
at_least_one-eq-reaches f r hf h = elim (Bool-cases (reaches f)) [
  | inl full ↦
      let scaled : f.1 * r.denominator ≤ f.0 * r.denominator =
        Nat.mul-le-mul_right r.denominator (leb→le f.1 f.0 full) in
      let more : r.denominator ≤ r.numerator =
        Nat.le_of_mul-le-mul_right {k = f.1} (omega (arith, h.cross)) hf in
      ground (arith, full, more)
  | inr short ↦
      let scaled : f.0 * r.denominator < f.1 * r.denominator =
        Nat.mul-lt-mul_of_pos_right (ground (arith, short)) h.positive in
      let less : r.numerator < r.denominator =
        Nat.lt_of_mul-lt-mul_right f.1 (omega (arith, h.cross)) in
      ground (arith, short, less)
]
