-- ===== src/Threshold/Tholder/Weights.antt =====
-- The independent description of weighted satisfaction: the weight that a set of slots reaches in
-- each clause, as an unreduced fraction. The loops of `satisfy` compute it.
use native.Mathlib.Nat
use keri_ts.Prelude.{
  ℕ, ◌+◌, ◌<◌, ◌≡◌, refl, ap, ◌∙◌, Bool, true, false, ◌&&◌, List, [], ◌∷◌, if◌then◌else◌, length,
  arith, All,
}
use keri_ts.Prelude.Result.{Result, ok, ◌>>=◌}
use keri_ts.Threshold.Error.{ThresholdError}
use keri_ts.Threshold.Rational.{Rational, add_if, at_least_one, rational_zero}
use keri_ts.Threshold.Weighted.{Entry, single, nested, Clause, entry_slots, clause_slots}
use keri_ts.Threshold.Weighted.Sums.{
  Fraction, weigh, reaches, IsSum, IsSum-step, IsSum-none, at_least_one-eq-reaches,
}
use keri_ts.Threshold.Tholder.{signed, member_loop, clause_loop, satisfy_loop}

-- The slots that count, as a test.
abbrev pub Slots : Type 0
Slots = ℕ → Bool

abbrev pub members_weight : Slots → ℕ → List Rational → Fraction
members_weight on offset [] = (0, 1)
members_weight on offset (w ∷ ws) = weigh (on offset) w (members_weight on (offset + 1) ws)

-- A group counts if its own members reach one.
abbrev pub clause_weight : Slots → ℕ → Clause → Fraction
clause_weight on offset [] = (0, 1)
clause_weight on offset (single w ∷ es) = weigh (on offset) w (clause_weight on (offset + 1) es)
clause_weight on offset (nested w ws ∷ es) =
    weigh (reaches (members_weight on offset ws)) w (clause_weight on (offset + length ws) es)

-- Every clause reaches one, over slots taken from left to right.
abbrev pub is_satisfied : Slots → ℕ → List Clause → Bool
is_satisfied on offset [] = true
is_satisfied on offset (c ∷ cs) =
    reaches (clause_weight on offset c) && is_satisfied on (offset + clause_slots c) cs

abbrev pub IsPositive : Rational → Type 0
IsPositive w = 0 < w.denominator

abbrev pub EntryIsPositive : Entry → Type 0
EntryIsPositive (single w) = IsPositive w
EntryIsPositive (nested w ws) = IsPositive w × All IsPositive ws

members_weight-pos :
    (on : Slots) (offset : ℕ) (ws : List Rational)
    → All IsPositive ws
    → 0 < (members_weight on offset ws).1
members_weight-pos on offset [] h = omega arith
members_weight-pos on offset (w ∷ ws) h =
    Nat.mul-pos (members_weight-pos on (offset + 1) ws h.1) h.0

clause_weight-pos :
    (on : Slots) (offset : ℕ) (c : Clause)
    → All EntryIsPositive c
    → 0 < (clause_weight on offset c).1
clause_weight-pos on offset [] h = omega arith
clause_weight-pos on offset (single w ∷ es) h =
    Nat.mul-pos (clause_weight-pos on (offset + 1) es h.1) h.0
clause_weight-pos on offset (nested w ws ∷ es) h =
    Nat.mul-pos (clause_weight-pos on (offset + length ws) es h.1) h.0.0

ok-if :
    (b x : Bool) → ◌≡◌ {A = Result ThresholdError Bool} (if b then ok x else ok false) (ok (b && x))
ok-if true x = refl
ok-if false x = refl

module _ (sats : List Bool) where
  member_loop-IsSum :
      (start : Rational) (offset : ℕ) (ws : List Rational)
      → 0 < start.denominator
      → All IsPositive ws
      → (r : Rational) × (member_loop sats start offset ws ≡ ok (r, offset + length ws))
        × IsSum start (members_weight (signed sats) offset ws) r
  unfolding member_loop
  member_loop-IsSum start offset [] hs h =
      (start, ap (λ (o : ℕ). ok (start, o)) (omega arith), IsSum-none start hs)
  member_loop-IsSum start offset (w ∷ ws) hs h =
      let (next, e, hn, extend) =
        IsSum-step (signed sats offset) start w (members_weight (signed sats) (offset + 1) ws) hs
          h.0 in
      let (r, e', sum) = member_loop-IsSum next (offset + 1) ws hn h.1 in
      (
        r,
        ap (λ m. m >>= λ x. member_loop sats x (offset + 1) ws) e
            ∙ e'
            ∙ ap (λ (o : ℕ). ok (r, o)) (omega arith),
        extend r sum,
      )

  clause_loop-IsSum :
      (start : Rational) (offset : ℕ) (c : Clause)
      → 0 < start.denominator
      → All EntryIsPositive c
      → (r : Rational) × (clause_loop sats start offset c ≡ ok (r, offset + clause_slots c))
        × IsSum start (clause_weight (signed sats) offset c) r
  unfolding clause_loop clause_slots entry_slots
  clause_loop-IsSum start offset [] hs h =
      (start, ap (λ (o : ℕ). ok (start, o)) (omega arith), IsSum-none start hs)
  clause_loop-IsSum start offset (single w ∷ es) hs h =
      let (next, e, hn, extend) =
        IsSum-step (signed sats offset) start w (clause_weight (signed sats) (offset + 1) es) hs
          h.0 in
      let (r, e', sum) = clause_loop-IsSum next (offset + 1) es hn h.1 in
      (
        r,
        ap (λ m. m >>= λ x. clause_loop sats x (offset + 1) es) e
            ∙ e'
            ∙ ap (λ (o : ℕ). ok (r, o)) (omega arith),
        extend r sum,
      )
  clause_loop-IsSum start offset (nested w ws ∷ es) hs h =
      let total = members_weight (signed sats) offset ws in
      let (m, em, inner) = member_loop-IsSum rational_zero offset ws (omega arith) h.0.1 in
      let test : at_least_one m ≡ reaches total =
        at_least_one-eq-reaches total m (members_weight-pos (signed sats) offset ws h.0.1) inner in
      let (next, e, hn, extend) =
        IsSum-step (reaches total) start w (clause_weight (signed sats) (offset + length ws) es) hs
          h.0.0 in
      let (r, e', sum) = clause_loop-IsSum next (offset + length ws) es hn h.1 in
      (
        r,
        ap
              (λ x. x >>= λ reached.
                add_if (at_least_one reached.0) start w >>= λ n. clause_loop sats n reached.1 es)
              em
            ∙ ap (λ b. add_if b start w >>= λ n. clause_loop sats n (offset + length ws) es) test
            ∙ ap (λ x. x >>= λ n. clause_loop sats n (offset + length ws) es) e
            ∙ e'
            ∙ ap (λ (o : ℕ). ok (r, o)) (omega arith),
        extend r sum,
      )

  -- The loop never throws, and decides the description.
  pub satisfy_loop-eq :
      (offset : ℕ) (cs : List Clause)
      → All (All EntryIsPositive) cs
      → satisfy_loop sats offset cs ≡ ok (is_satisfied (signed sats) offset cs)
  unfolding satisfy_loop
  satisfy_loop-eq offset [] h = refl
  satisfy_loop-eq offset (c ∷ cs) h =
      let total = clause_weight (signed sats) offset c in
      let (r, e, sum) = clause_loop-IsSum rational_zero offset c (omega arith) h.0 in
      let test : at_least_one r ≡ reaches total =
        at_least_one-eq-reaches total r (clause_weight-pos (signed sats) offset c h.0) sum in
      ap
        (λ x. x >>= λ reached.
          let others = satisfy_loop sats reached.1 cs in
          if at_least_one reached.0 then others else ok false)
        e
      ∙ ap
          (λ b.
            let others = satisfy_loop sats (offset + clause_slots c) cs in
            if b then others else ok false)
          test
      ∙ ap (λ m. if reaches total then m else ok false)
          (satisfy_loop-eq (offset + clause_slots c) cs h.1)
      ∙ ok-if (reaches total) (is_satisfied (signed sats) (offset + clause_slots c) cs)
