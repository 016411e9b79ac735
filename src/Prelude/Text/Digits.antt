-- ===== src/Prelude/Text/Digits.antt =====
-- Printed digits read back as the number, in every radix up to sixteen.
use native.Mathlib.Nat
use keri_ts.Prelude.Tests.{ltb, Bool-cases}
use Prim.Native.Nat.{ℕ, zero, suc, ◌+◌, ◌*◌, ◌/◌, ◌%◌, ◌≤◌, ◌<◌}
use mathlib.Core.Path.{◌≡◌, refl, ap, ◌∙◌}
use mathlib.Core.Logic.{inl, inr}
use mathlib.Core.Option.{some}
use mathlib.Core.List.{[], ◌∷◌}
use native.Mathlib.Omega.{arith}
use keri_ts.Prelude.Lists.{All}
use keri_ts.Prelude.Text.{Text, digit_char, digit_value, emit, to_string, scan, parse_digits}

digit_value-digit_char : (d : ℕ) → d < 16 → digit_value (digit_char d) ≡ some d
unfolding digit_value
digit_value-digit_char d h = ground arith

module _ (radix : ℕ) (low : 2 ≤ radix) (high : radix ≤ 16) where
  scan_digit :
      (d n : ℕ) (s : Text)
      → d < radix
      → scan radix (digit_char d ∷ s) n ≡ scan radix s (n * radix + d)
  unfolding scan
  scan_digit d n s h = ground (arith, digit_value-digit_char d (omega arith))

  scan-emit :
      (fuel n : ℕ) (out : Text) → n < fuel → scan radix (emit fuel radix n out) 0 ≡ scan radix out n
  unfolding emit
  scan-emit zero n out h = elim h [ ]
  scan-emit (suc fuel) n out h = elim (Bool-cases (ltb n radix)) [
    | inl small ↦
        rw small (scan_digit n 0 out (ground (arith, small)) ∙ ap (scan radix out) (omega arith))
    | inr large ↦
        let q : n / radix < n = Nat.div-lt_self (ground (arith, large)) (omega arith) in
        rw large (
          scan-emit fuel (n / radix) (digit_char (n % radix) ∷ out) (omega arith)
          ∙ scan_digit (n % radix) (n / radix) out (Nat.mod-lt n (omega arith))
          ∙ ap (scan radix out) (Nat.div-add-mod' n radix))
  ]

  emit_cons :
      (fuel n : ℕ) (out : Text) → (c : ℕ) × (s : Text) × (emit (suc fuel) radix n out ≡ c ∷ s)
  unfolding emit
  emit_cons fuel n out = elim (Bool-cases (ltb n radix)) [
    | inl small ↦ (digit_char n, out, rw small)
    | inr large ↦
        let (c, s, e) = more fuel (n / radix) (digit_char (n % radix)) out in (c, s, rw large e)
  ]
    where
      more :
          (fuel n d : ℕ) (out : Text) → (c : ℕ) × (s : Text) × (emit fuel radix n (d ∷ out) ≡ c ∷ s)
      more zero n d out = (d, out, refl)
      more (suc fuel) n d out = elim (Bool-cases (ltb n radix)) [
        | inl small ↦ (digit_char n, d ∷ out, rw small)
        | inr large ↦
            let (c, s, e) = more fuel (n / radix) (digit_char (n % radix)) (d ∷ out) in
            (c, s, rw large e)
      ]

  parse-eq-scan : (t : Text) {c : ℕ} {s : Text} → t ≡ c ∷ s → parse_digits radix t ≡ scan radix t 0
  unfolding parse_digits
  parse-eq-scan [] e = cc
  parse-eq-scan (c ∷ s) e = refl

  -- `toString(radix)` reads back as the number.
  pub parse-to_string : (n : ℕ) → parse_digits radix (to_string radix n) ≡ some n
  unfolding to_string scan
  parse-to_string n =
      let (c, s, e) = emit_cons n n [] in
      parse-eq-scan (emit (suc n) radix n []) e ∙ scan-emit (suc n) n [] (omega arith) ∙ last
    where
      last : scan radix [] n ≡ some n
      last = refl

  All-emit {ℓ} :
      (P : ℕ → Type ℓ)
      → ((d : ℕ) → d < 16 → P (digit_char d))
      → (fuel n : ℕ) (out : Text) → All P out
      → All P (emit fuel radix n out)
  unfolding emit
  All-emit P h zero n out all = all
  All-emit P h (suc fuel) n out all = elim (Bool-cases (ltb n radix)) [
    | inl small ↦ rw small (h n (ground (arith, small)), all)
    | inr large ↦ rw large (
        All-emit P h fuel (n / radix) (digit_char (n % radix) ∷ out) (
          h (n % radix) (let lt : n % radix < radix = Nat.mod-lt n (omega arith) in omega arith),
          all,
        ))
  ]

  -- Whatever holds of every digit's character holds of every character that is printed.
  pub All-to_string {ℓ} :
      (P : ℕ → Type ℓ) → ((d : ℕ) → d < 16 → P (digit_char d)) → (n : ℕ) → All P (to_string radix n)
  unfolding to_string
  All-to_string P h n = All-emit P h (suc n) n [] tt

  pub to_string_cons : (n : ℕ) → (c : ℕ) × (s : Text) × (to_string radix n ≡ c ∷ s)
  unfolding to_string
  to_string_cons n = emit_cons n n []
