-- ===== src/Threshold/Weight/RoundTrip.antt =====
-- Weights that are parsed lie in [0, 1] in lowest terms, and what is printed is parsed back.
use native.Mathlib.Nat
use Prim.Native.Nat.{◌∣◌}
use mathlib.Core.Path.{subst}
use keri_ts.Prelude.{
  ℕ, ◌+◌, ◌*◌, ◌≤◌, ◌<◌, Bool, true, false, ◌||◌, Option, none, some, [], ◌∷◌, ◌++◌, ◌≡◌, refl, sym,
  ap, ◌∙◌, inl, inr, arith, ◌==◌, Bool-cases, Option-cases, All,
}
use keri_ts.Prelude.Result.{ok, ◌>>=◌, >>=-eq-ok}
use keri_ts.Prelude.Text.{
  Text, is_space, trim_start, attach, trim_end, trim, minus, split_at, digit_char, digit_value,
  to_string, scan, parse_digits,
}
use keri_ts.Prelude.Text.Digits.{parse-to_string, All-to_string, to_string_cons}
use keri_ts.Threshold.Rational.{Rational, normalize_rational}
use keri_ts.Threshold.Rational.Laws.{
  IsReduced, normalize_reduced, normalize-eq-ok, integer-IsReduced, IsReduced-one,
}
use keri_ts.Threshold.Weight.{
  format_weight, check_range, fraction_match, parse_fraction, parse_body, parse_trimmed,
  parse_weight,
}

-- A rational in lowest terms between 0 and 1.
pub record IsWeight (r : Rational) : Type 0 where
  pub reduced : IsReduced r
  pub at_most_one : r.numerator ≤ r.denominator

check_range-le :
    (negative : Bool) (x r : Rational)
    → check_range negative x ≡ ok r
    → (x ≡ r) × (r.numerator ≤ r.denominator)
unfolding check_range
check_range-le negative x r h = ground (arith, h)

check-IsWeight :
    (negative : Bool) (x r : Rational) → IsReduced x → check_range negative x ≡ ok r → IsWeight r
check-IsWeight negative x r red h =
    let (same, small) = check_range-le negative x r h in
    record { reduced = subst IsReduced same red; at_most_one = small }

parse_fraction-IsWeight :
    (negative : Bool) (m : Option (ℕ × ℕ)) (r : Rational)
    → parse_fraction negative m ≡ ok r
    → IsWeight r
unfolding parse_fraction
parse_fraction-IsWeight negative none r h = cc
parse_fraction-IsWeight negative (some (n, d)) r h =
    let (x, e, checked) = >>=-eq-ok (normalize_rational n d) (check_range negative) h in
    check-IsWeight negative x r (normalize-eq-ok n d x e) checked

parse_body-IsWeight :
    (negative : Bool) (body : Text) (r : Rational) → parse_body negative body ≡ ok r → IsWeight r
unfolding parse_body
parse_body-IsWeight negative body r h = elim (Option-cases (parse_digits 10 body)) [
  | inl other ↦
      parse_fraction-IsWeight negative (fraction_match body) r (rw (other, parse_body) at h)
  | inr (n, digits) ↦
      check-IsWeight negative (record { numerator = n; denominator = 1 }) r (integer-IsReduced n)
        (rw (digits, parse_body) at h)
]

-- Every weight that `parseWeight` returns is a rational between 0 and 1 in lowest terms, with a
-- positive denominator.
pub parse-IsWeight : (input : Text) (r : Rational) → parse_weight input ≡ ok r → IsWeight r
unfolding parse_weight
parse-IsWeight input r h = trimmed (trim input) h
  where
    trimmed : (t : Text) → parse_trimmed t ≡ ok r → IsWeight r
    trimmed [] e = cc
    trimmed (c ∷ s) e =
        let (negative, body) = minus (c ∷ s) in parse_body-IsWeight negative body r e

-- A character of a printed weight other than the bar.
abbrev IsDigit : ℕ → Type 0
IsDigit c = (is_space c ≡ false) × ((c == b'/') ≡ false) × ((c == b'-') ≡ false)

digit_char-IsDigit : (d : ℕ) → d < 16 → IsDigit (digit_char d)
unfolding is_space
digit_char-IsDigit d h = ground arith

decimal-IsDigit : (n : ℕ) → All IsDigit (to_string 10 n)
decimal-IsDigit = All-to_string 10 (omega arith) (omega arith) IsDigit digit_char-IsDigit

abbrev pub IsInk : ℕ → Type 0
IsInk c = is_space c ≡ false

trim_end-ink : (t : Text) → All IsInk t → trim_end t ≡ t
unfolding trim_end
trim_end-ink [] h = refl
trim_end-ink (c ∷ []) h = ground (arith, h.0)
trim_end-ink (c ∷ d ∷ r) h = ap (attach c) (trim_end-ink (d ∷ r) h.1)

pub trim-ink : (t : Text) → All IsInk t → trim t ≡ t
unfolding trim
trim-ink [] h = refl
trim-ink (c ∷ s) h = ap trim_end (starts c s h.0) ∙ trim_end-ink (c ∷ s) h
  where
    starts : (c : ℕ) (s : Text) → is_space c ≡ false → trim_start (c ∷ s) ≡ c ∷ s
    starts c s ink = ground (arith, ink)

-- A text without spaces that does not begin with a sign is read as it stands.
parse_unsigned :
    (t : Text) {c : ℕ} {s : Text}
    → t ≡ c ∷ s
    → All IsInk t
    → (c == b'-') ≡ false
    → parse_weight t ≡ parse_body false t
unfolding parse_weight
parse_unsigned t {c} {s} e ink unsigned =
    ap parse_trimmed (trim-ink t ink) ∙ ap parse_trimmed e ∙ headed ∙ ap (parse_body false) (sym e)
  where
    headed : parse_trimmed (c ∷ s) ≡ parse_body false (c ∷ s)
    headed = unfold minus in rw unsigned

All-IsInk : (t : Text) → All IsDigit t → All IsInk t
All-IsInk [] h = tt
All-IsInk (c ∷ s) h = (h.0.0, All-IsInk s h.1)

All-IsInk_append : (t u : Text) → All IsInk t → All IsInk u → All IsInk (t ++ u)
All-IsInk_append [] u ht hu = hu
All-IsInk_append (c ∷ t) u ht hu = (ht.0, All-IsInk_append t u ht.1 hu)

-- The bar ends a run of digits.
bar_no_digit : digit_value b'/' ≡ none
unfolding digit_value
bar_no_digit = refl

scan_bar : (xs ys : Text) (n : ℕ) → scan 10 (xs ++ b'/' ∷ ys) n ≡ none
unfolding scan
scan_bar [] ys n = rw (bar_no_digit, scan)
scan_bar (c ∷ xs) ys n = elim (Option-cases (digit_value c)) [
  | inl e ↦ rw (e, scan)
  | inr (d, e) ↦ rw (e, scan) (ground (arith, scan_bar xs ys (n * 10 + d)))
]

split_at_bar : (xs ys : Text) → All IsDigit xs → split_at b'/' (xs ++ b'/' ∷ ys) ≡ some (xs, ys)
unfolding split_at
split_at_bar [] ys h = refl
split_at_bar (c ∷ xs) ys h = ground (arith, h.0.1, split_at_bar xs ys h.1)

parse_digits_bar : (xs ys : Text) → parse_digits 10 (xs ++ b'/' ∷ ys) ≡ none
unfolding parse_digits
parse_digits_bar [] ys = refl
parse_digits_bar (c ∷ xs) ys = scan_bar (c ∷ xs) ys 0

append_cons : (t u : Text) {c : ℕ} {s : Text} → t ≡ c ∷ s → t ++ u ≡ c ∷ (s ++ u)
append_cons t u e = ap (λ (l : Text). l ++ u) e

unsigned_head : {c : ℕ} {s t : Text} → t ≡ c ∷ s → All IsDigit t → (c == b'-') ≡ false
unsigned_head e h = (subst (All IsDigit) e h).0.2

body_integer :
    (t : Text) (n : ℕ)
    → parse_digits 10 t ≡ some n
    → parse_body false t ≡ check_range false (record { numerator = n; denominator = 1 })
unfolding parse_body
body_integer t n h = rw (h, parse_body)

body_fraction :
    (t before after : Text) (n d : ℕ)
    → parse_digits 10 t ≡ none
    → split_at b'/' t ≡ some (before, after)
    → parse_digits 10 before ≡ some n
    → parse_digits 10 after ≡ some d
    → parse_body false t ≡ (normalize_rational n d >>= check_range false)
unfolding parse_body
body_fraction t before after n d none_left bar hn hd =
    rw (none_left, parse_body) (ap (parse_fraction false) matched)
  where
    matched : fraction_match t ≡ some (n, d)
    matched = rw (bar, fraction_match) (rw hn (rw hd refl))

module _ (n : ℕ) where
  decimal : parse_digits 10 (to_string 10 n) ≡ some n
  decimal = parse-to_string 10 (omega arith) (omega arith) n

  parse_integer :
      parse_weight (to_string 10 n) ≡ check_range false (record { numerator = n; denominator = 1 })
  parse_integer =
      let (c, s, e) = to_string_cons 10 (omega arith) (omega arith) n in
      parse_unsigned (to_string 10 n) e (All-IsInk (to_string 10 n) (decimal-IsDigit n))
        (unsigned_head e (decimal-IsDigit n))
      ∙ body_integer (to_string 10 n) n decimal

bar_ink : is_space b'/' ≡ false
unfolding is_space
bar_ink = refl

parse_bar :
    (n d : ℕ)
    → parse_weight (to_string 10 n ++ (b'/' ∷ to_string 10 d))
      ≡ (normalize_rational n d >>= check_range false)
parse_bar n d =
    let (c, s, e) = to_string_cons 10 (omega arith) (omega arith) n in
    parse_unsigned text (append_cons (to_string 10 n) rest e)
      (All-IsInk_append (to_string 10 n) rest (All-IsInk (to_string 10 n) (decimal-IsDigit n))
        (bar_ink, All-IsInk (to_string 10 d) (decimal-IsDigit d)))
      (unsigned_head e (decimal-IsDigit n))
    ∙ body_fraction text (to_string 10 n) (to_string 10 d) n d
        (parse_digits_bar (to_string 10 n) (to_string 10 d))
        (split_at_bar (to_string 10 n) (to_string 10 d) (decimal-IsDigit n)) (decimal n) (decimal d)
  where
    rest : Text
    rest = b'/' ∷ to_string 10 d

    text : Text
    text = to_string 10 n ++ rest

-- The test of `formatWeight` for an integer.
whole : Rational → Bool
whole w = w.denominator == 1 || w.numerator == 0 || w.numerator == w.denominator

whole-one : (w : Rational) → IsReduced w → whole w ≡ true → w.denominator ≡ 1
unfolding whole
whole-one w h e = elim (Bool-cases (w.denominator == 1)) [
  | inl one ↦ ground (arith, one)
  | inr other ↦ elim (Bool-cases (w.numerator == 0)) [
    | inl nought ↦
        IsReduced-one w h
          (subst (λ n. w.denominator ∣ n) (ground (arith, nought)) (Nat.dvd-zero w.denominator))
    | inr more ↦ IsReduced-one w h (
        subst (λ n. w.denominator ∣ n) (ground (arith, e, other, more))
          (Nat.dvd_refl w.denominator))
  ]
]

in_range : (w : Rational) → w.numerator ≤ w.denominator → check_range false w ≡ ok w
unfolding check_range
in_range w h = ground (arith, h)

whole_integer :
    (w : Rational) → w.denominator ≡ 1 → record { numerator = w.numerator; denominator = 1 } ≡ w
whole_integer w h = ground (arith, h)

-- A weight between 0 and 1 in lowest terms that `formatWeight` prints is read back by `parseWeight`
-- as itself.
pub parse-format : (w : Rational) → IsWeight w → parse_weight (format_weight w) ≡ ok w
unfolding format_weight whole
parse-format w h = elim (Bool-cases (whole w)) [
  | inl integral ↦
      let one : w.denominator ≡ 1 = whole-one w h.reduced integral in
      rw integral (
        parse_integer w.numerator
        ∙ ap (check_range false) (whole_integer w one)
        ∙ in_range w h.at_most_one)
  | inr proper ↦ rw proper (
      parse_bar w.numerator w.denominator
      ∙ ap (λ x. x >>= check_range false) (normalize_reduced w h.reduced)
      ∙ in_range w h.at_most_one)
]
