-- ===== src/Threshold/Rational/Laws.antt =====
-- The rationals are kept in lowest terms, and their sums are exact.
use mathlib.Core.WellFounded.{Acc}
use mathlib.Core.Path.{subst}
use Prim.Native.Nat.{◌∣◌}
use native.Mathlib.Nat
use keri_ts.Prelude.{ℕ, zero, suc, ◌+◌, ◌*◌, ◌/◌, ◌%◌, ◌<◌, ◌≡◌, ap, sym, ◌∙◌, arith}
use keri_ts.Prelude.Order.{lt_wf}
use keri_ts.Prelude.Result.{ok}
use keri_ts.Threshold.Rational.{
  Rational, mod-lt-suc, gcd_loop, gcd, normalize_rational, add_rationals,
}

loop-dvd : (a b : ℕ) (w : Acc ◌<◌ b) → (gcd_loop a b w ∣ a) × (gcd_loop a b w ∣ b)
unfolding gcd_loop
loop-dvd a zero (Acc.intro _ _) = (Nat.dvd_refl a, Nat.dvd-zero a)
loop-dvd a (suc b) (Acc.intro _ smaller) =
    let (first, second) = loop-dvd (suc b) (a % suc b) (smaller (a % suc b) (mod-lt-suc a b)) in
    ((Nat.dvd-mod_iff _ first).0 second, first)

dvd-loop : (k a b : ℕ) (w : Acc ◌<◌ b) → k ∣ a → k ∣ b → k ∣ gcd_loop a b w
unfolding gcd_loop
dvd-loop k a zero (Acc.intro _ _) ka kb = ka
dvd-loop k a (suc b) (Acc.intro _ smaller) ka kb =
    dvd-loop k (suc b) (a % suc b) (smaller (a % suc b) (mod-lt-suc a b)) kb
      ((Nat.dvd-mod_iff k kb).1 ka)

-- With a positive second argument the result of the loop is positive.
gcd-eq-loop : (a b : ℕ) → 0 < b → gcd a b ≡ gcd_loop a b (lt_wf.apply b)
unfolding gcd
gcd-eq-loop a b h = ground (arith, Nat.pos_of_dvd_of_pos (loop-dvd a b (lt_wf.apply b)).1 h)

pub gcd-pos : (a b : ℕ) → 0 < b → 0 < gcd a b
gcd-pos a b h = rw (gcd-eq-loop a b h) (Nat.pos_of_dvd_of_pos (loop-dvd a b (lt_wf.apply b)).1 h)

pub gcd-dvd : (a b : ℕ) → 0 < b → (gcd a b ∣ a) × (gcd a b ∣ b)
gcd-dvd a b h = rw (gcd-eq-loop a b h) (loop-dvd a b (lt_wf.apply b))

pub dvd-gcd : (k a b : ℕ) → 0 < b → k ∣ a → k ∣ b → k ∣ gcd a b
dvd-gcd k a b h ka kb = rw (gcd-eq-loop a b h) (dvd-loop k a b (lt_wf.apply b) ka kb)

quotient-pos : (a b : ℕ) → 0 < b → 0 < b / gcd a b
quotient-pos a b h =
    let whole : b / gcd a b * gcd a b ≡ b = Nat.div-mul_cancel (gcd a b) (gcd-dvd a b h).1 in
    go (b / gcd a b) (rw whole h)
  where
    go : (q : ℕ) → 0 < q * gcd a b → 0 < q
    go zero p = absurd (omega arith)
    go (suc q) p = omega arith

-- Dividing by the greatest common divisor leaves no common divisor.
pub gcd_reduced : (a b : ℕ) → 0 < b → gcd (a / gcd a b) (b / gcd a b) ≡ 1
gcd_reduced a b h =
    Nat.eq-one_of_dvd-one
      (Nat.dvd_of_mul-dvd-mul_right r g_pos (subst (λ t. r * g ∣ t) (sym (Nat.one-mul g)) both))
  where
    g : ℕ
    g = gcd a b

    g_pos : 0 < g
    g_pos = gcd-pos a b h

    r : ℕ
    r = gcd (a / g) (b / g)

    divides : (r ∣ a / g) × (r ∣ b / g)
    divides = gcd-dvd (a / g) (b / g) (quotient-pos a b h)

    scaled : (n : ℕ) → g ∣ n → r ∣ n / g → r * g ∣ n
    scaled n whole part =
        subst (◌∣◌ (r * g)) (Nat.div-mul_cancel g whole) (Nat.mul-dvd-mul_right r part g)

    both : r * g ∣ g
    both =
        dvd-gcd (r * g) a b h (scaled a (gcd-dvd a b h).0 divides.0)
          (scaled b (gcd-dvd a b h).1 divides.1)

-- A positive denominator, and no common divisor but one.
pub record IsReduced (r : Rational) : Type 0 where
  pub positive : 0 < r.denominator
  pub lowest : (k : ℕ) → k ∣ r.numerator → k ∣ r.denominator → k ≡ 1

-- `r` has the value of the fraction `n / d`.
infix 4 ◌∼◌
pub record ◌∼◌ (r : Rational) (f : ℕ × ℕ) : Type 0 where
  pub cross : r.numerator * f.1 ≡ f.0 * r.denominator

pub IsReduced-gcd : (r : Rational) → IsReduced r → gcd r.numerator r.denominator ≡ 1
IsReduced-gcd r h =
    let (n, d) = gcd-dvd r.numerator r.denominator h.positive in
    h.lowest (gcd r.numerator r.denominator) n d

abbrev reduced : ℕ → ℕ → Rational
reduced n d = record { numerator = n / gcd n d; denominator = d / gcd n d }

normalize-eq : (n d : ℕ) → 0 < d → normalize_rational n d ≡ ok (reduced n d)
unfolding normalize_rational
normalize-eq n d h = ground arith

-- Of a fraction with a positive denominator, `normalizeRational` returns the rational of the same
-- value with a positive denominator, whose numerator and denominator have no common divisor but one.
pub normalize-IsReduced :
    (n d : ℕ)
    → 0 < d
    → (r : Rational) × (normalize_rational n d ≡ ok r) × IsReduced r × (r ∼ (n, d))
normalize-IsReduced n d h =
    let (whole_n, whole_d) = gcd-dvd n d h in
    let g = gcd n d in
    (
      reduced n d,
      normalize-eq n d h,
      record {
        positive = quotient-pos n d h;
        lowest = λ k kn kd. Nat.eq-one_of_dvd-one (
            subst (◌∣◌ k) (gcd_reduced n d h)
              (dvd-gcd k (n / g) (d / g) (quotient-pos n d h) kn kd));
      },
      record {
        cross =
            ap (λ (t : ℕ). n / g * t) (sym (Nat.div-mul_cancel g whole_d))
            ∙ omega (arith)
            ∙ ap (λ (t : ℕ). t * (d / g)) (Nat.div-mul_cancel g whole_n);
      },
    )

-- A fraction that is in lowest terms already is left as it is.
pub normalize_reduced :
    (r : Rational) → IsReduced r → normalize_rational r.numerator r.denominator ≡ ok r
normalize_reduced r h =
    normalize-eq r.numerator r.denominator h.positive
    ∙ ap (λ (g : ℕ). ok (record { numerator = r.numerator / g; denominator = r.denominator / g }))
        (IsReduced-gcd r h)
    ∙ ground arith

-- The sum of two rationals with positive denominators is exact and in lowest terms.
pub add-IsReduced :
    (x y : Rational)
    → 0 < x.denominator
    → 0 < y.denominator
    → (r : Rational) × (add_rationals x y ≡ ok r)
      × IsReduced r
      × (r ∼ (
        x.numerator * y.denominator + y.numerator * x.denominator,
        x.denominator * y.denominator,
      ))
unfolding add_rationals
add-IsReduced x y hx hy =
    normalize-IsReduced (x.numerator * y.denominator + y.numerator * x.denominator)
      (x.denominator * y.denominator) (Nat.mul-pos hx hy)

-- What `normalizeRational` returns is in lowest terms.
pub normalize-eq-ok : (n d : ℕ) (r : Rational) → normalize_rational n d ≡ ok r → IsReduced r
unfolding normalize_rational
normalize-eq-ok n zero r h = cc
normalize-eq-ok n (suc d) r h =
    let (r', e, reduced', value) = normalize-IsReduced n (suc d) (omega arith) in
    let same : r' ≡ r = cc (e, h) in subst IsReduced same reduced'

pub integer-IsReduced : (n : ℕ) → IsReduced (record { numerator = n; denominator = 1 })
integer-IsReduced n = record {
  positive = omega arith;
  lowest = λ k kn kd. Nat.eq-one_of_dvd-one kd;
}

-- In lowest terms a denominator that divides its numerator is one.
pub IsReduced-one : (r : Rational) → IsReduced r → r.denominator ∣ r.numerator → r.denominator ≡ 1
IsReduced-one r h d = h.lowest r.denominator d (Nat.dvd_refl r.denominator)
