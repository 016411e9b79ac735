-- ===== src/Threshold/Weight.antt =====
-- packages/cesr/src/primitives/tholder.ts: the textual weights, `parseWeight` and `formatWeight`.
-- A text is the list of its code points, so decimal integers are read and printed digit by digit.
pub mod RoundTrip
use keri_ts.Prelude.{
  ℕ, ◌*◌, Bool, true, false, not, ◌&&◌, ◌||◌, Option, none, some, [], ◌∷◌, ◌++◌, ◌≡◌, refl, ltb,
  ◌==◌, if◌then◌else◌,
}
use keri_ts.Prelude.Result.{Result, ok, err, ◌>>=◌}
use keri_ts.Prelude.Text.{Text, codes, trim, minus, split_at, to_string, parse_digits}
use keri_ts.Threshold.Error.{
  ThresholdError, empty_weight, invalid_weight, weight_out_of_range, zero_denominator,
}
use keri_ts.Threshold.Rational.{Rational, normalize_rational}

unfoldable pub format_weight : Rational → Text
format_weight weight =
    if weight.denominator == 1 || weight.numerator == 0 || weight.numerator == weight.denominator
    then to_string 10 weight.numerator
    else to_string 10 weight.numerator ++ (b'/' ∷ to_string 10 weight.denominator)

-- The value, with its sign, lies outside [0, 1]; `1` is compared by cross-multiplication.
unfoldable pub out_of_range : Bool → Rational → Bool
out_of_range negative value =
    (negative && not (value.numerator == 0)) || ltb (1 * value.denominator) (value.numerator * 1)

unfoldable pub check_range : Bool → Rational → Result ThresholdError Rational
unfolding out_of_range
check_range negative value =
    if out_of_range negative value then err weight_out_of_range else ok value

-- The groups of `/^(-?\d+)\/(\d+)$/`, `none` where it does not match.
unfoldable pub fraction_match : Text → Option (ℕ × ℕ)
fraction_match body = elim (split_at b'/' body) [
  | none ↦ none
  | some (before, after) ↦ elim (parse_digits 10 before) [
    | none ↦ none
    | some numerator ↦ elim (parse_digits 10 after) [
      | none ↦ none
      | some denominator ↦ some (numerator, denominator)
    ]
  ]
]

unfoldable pub parse_fraction : Bool → Option (ℕ × ℕ) → Result ThresholdError Rational
unfolding check_range
parse_fraction negative none = err invalid_weight
parse_fraction negative (some (numerator, denominator)) =
    normalize_rational numerator denominator >>= check_range negative

-- `body` is the text after an optional sign. A body of digits alone is an integer.
unfoldable pub parse_body : Bool → Text → Result ThresholdError Rational
unfolding parse_fraction fraction_match
parse_body negative body = elim (parse_digits 10 body) [
  | some value ↦ check_range negative (record { numerator = value; denominator = 1 })
  | none ↦ parse_fraction negative (fraction_match body)
]

unfoldable pub parse_trimmed : Text → Result ThresholdError Rational
unfolding parse_body
parse_trimmed [] = err empty_weight
parse_trimmed (c ∷ s) = let (negative, body) = minus (c ∷ s) in parse_body negative body

unfoldable pub parse_weight : Text → Result ThresholdError Rational
unfolding parse_trimmed
parse_weight input = parse_trimmed (trim input)

parse_two_fourths : parse_weight (codes " 2/4 ") ≡ ok (record { numerator = 1; denominator = 2 })
unfolding parse_weight trim minus split_at parse_digits normalize_rational
parse_two_fourths = refl

parse_refusals :
    (parse_weight (codes "  ") ≡ err empty_weight)
    × (parse_weight (codes "3/2") ≡ err weight_out_of_range)
    × (parse_weight (codes "-1/2") ≡ err weight_out_of_range)
    × (parse_weight (codes "1/0") ≡ err zero_denominator)
    × (parse_weight (codes "1/-2") ≡ err invalid_weight)
unfolding parse_weight trim minus split_at parse_digits normalize_rational
parse_refusals = (refl, refl, refl, refl, refl)
