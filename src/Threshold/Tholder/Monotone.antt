-- ===== src/Threshold/Tholder/Monotone.antt =====
-- More signers never lose a weighted threshold, and every slot together reaches it.
use native.Mathlib.Nat
use keri_ts.Prelude.{
  ℕ, ◌+◌, ◌*◌, ◌≤◌, ◌<◌, ◌≡◌, refl, ap, Bool, true, false, List, [], ◌∷◌, length, arith, leb→le,
  le→leb,
}
use keri_ts.Threshold.Rational.{Rational}
use keri_ts.Threshold.Weighted.{single, nested, Clause, entry_slots, clause_slots, slots}
use keri_ts.Threshold.Weighted.Sums.{Fraction, weigh, reaches}
use keri_ts.Threshold.Tholder.Weights.{Slots, members_weight, clause_weight, is_satisfied}

-- Over the slots `offset`, …, `offset + n - 1`, whatever counts in `a` counts in `b`.
abbrev pub Extends : Slots → Slots → ℕ → ℕ → Type 0
Extends a b offset n = (o : ℕ) → offset ≤ o → o < offset + n → a o ≡ true → b o ≡ true

-- The same denominator, and no smaller a numerator.
pub record IsBelow (f g : Fraction) : Type 0 where
  pub same : f.1 ≡ g.1
  pub less : f.0 ≤ g.0

weigh-IsBelow :
    (s t : Bool) (w : Rational) (f g : Fraction)
    → (s ≡ true → t ≡ true)
    → IsBelow f g
    → IsBelow (weigh s w f) (weigh t w g)
weigh-IsBelow false t w f g st h = record {
  same = ap (λ (x : ℕ). x * w.denominator) h.same;
  less =
      let scaled : f.0 * w.denominator ≤ g.0 * w.denominator =
        Nat.mul-le-mul_right w.denominator h.less in
      omega arith;
}
weigh-IsBelow true t w f g st h = rw (st refl) (record {
  same = ap (λ (x : ℕ). x * w.denominator) h.same;
  less =
      let scaled : f.0 * w.denominator ≤ g.0 * w.denominator =
        Nat.mul-le-mul_right w.denominator h.less in
      omega (arith, ap (λ (x : ℕ). w.numerator * x) h.same);
})

reaches_mono : (f g : Fraction) → IsBelow f g → reaches f ≡ true → reaches g ≡ true
reaches_mono f g h r = le→leb g.1 g.0 (omega (arith, leb→le f.1 f.0 r, h.same, h.less))

Extends-rest :
    (a b : Slots) (offset k n m : ℕ) → n ≡ k + m → Extends a b offset n → Extends a b (offset + k) m
Extends-rest a b offset k n m e h o low high = h o (omega arith) (omega arith)

Extends-part : (a b : Slots) (offset k n : ℕ) → k ≤ n → Extends a b offset n → Extends a b offset k
Extends-part a b offset k n le h o low high = h o low (omega arith)

module _ (a b : Slots) where
  members_weight_mono :
      (offset : ℕ) (ws : List Rational)
      → Extends a b offset (length ws)
      → IsBelow (members_weight a offset ws) (members_weight b offset ws)
  members_weight_mono offset [] h = record { same = refl; less = omega arith }
  members_weight_mono offset (w ∷ ws) h =
      weigh-IsBelow (a offset) (b offset) w (members_weight a (offset + 1) ws)
        (members_weight b (offset + 1) ws) (h offset (omega arith) (omega arith))
        (members_weight_mono (offset + 1) ws
          (Extends-rest a b offset 1 (length (w ∷ ws)) (length ws) (omega arith) h))

  clause_weight_mono :
      (offset : ℕ) (c : Clause)
      → Extends a b offset (clause_slots c)
      → IsBelow (clause_weight a offset c) (clause_weight b offset c)
  unfolding clause_slots entry_slots
  clause_weight_mono offset [] h = record { same = refl; less = omega arith }
  clause_weight_mono offset (single w ∷ es) h =
      weigh-IsBelow (a offset) (b offset) w (clause_weight a (offset + 1) es)
        (clause_weight b (offset + 1) es) (h offset (omega arith) (omega arith))
        (clause_weight_mono (offset + 1) es
          (Extends-rest a b offset 1 (1 + clause_slots es) (clause_slots es) refl h))
  clause_weight_mono offset (nested w ws ∷ es) h =
      weigh-IsBelow (reaches (members_weight a offset ws)) (reaches (members_weight b offset ws)) w
        (clause_weight a (offset + length ws) es) (clause_weight b (offset + length ws) es)
        (reaches_mono (members_weight a offset ws) (members_weight b offset ws) (
          members_weight_mono offset ws
            (Extends-part a b offset (length ws) (length ws + clause_slots es) (omega arith) h)))
        (clause_weight_mono (offset + length ws) es (
          Extends-rest a b offset (length ws) (length ws + clause_slots es) (clause_slots es) refl
            h))

  pub is_satisfied_mono :
      (offset : ℕ) (cs : List Clause)
      → Extends a b offset (slots cs)
      → is_satisfied a offset cs ≡ true
      → is_satisfied b offset cs ≡ true
  unfolding slots
  is_satisfied_mono offset [] h s = refl
  is_satisfied_mono offset (c ∷ cs) h s =
      let first : reaches (clause_weight b offset c) ≡ true =
        reaches_mono (clause_weight a offset c) (clause_weight b offset c)
          (clause_weight_mono offset c
            (Extends-part a b offset (clause_slots c) (clause_slots c + slots cs) (omega arith) h))
          (ground (arith, s)) in
      let rest : is_satisfied b (offset + clause_slots c) cs ≡ true =
        is_satisfied_mono (offset + clause_slots c) cs
          (Extends-rest a b offset (clause_slots c) (clause_slots c + slots cs) (slots cs) refl h)
          (ground (arith, s)) in
      rw first rest
