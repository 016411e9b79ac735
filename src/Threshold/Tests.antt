-- ===== src/Threshold/Tests.antt =====
-- The threshold theorems at concrete inputs.
use Prim.Native.Nat.{ℕ, ◌<◌}
use keri_ts.Prelude.{
  ◌≡◌, refl, Bool, true, false, not, ◌&&◌, List, [], ◌∷◌, some, arith, ltb, leb, ◌==◌, length, All,
}
use keri_ts.Prelude.Sets.{nat_eq, has}
use keri_ts.Prelude.Result.{Result, ok, err}
use keri_ts.Prelude.Text.{Text}
use keri_ts.Threshold.Error.{ThresholdError, invalid_entry}
use keri_ts.Threshold.Rational.{Rational, normalize_rational, add_rationals}
use keri_ts.Threshold.Rational.Laws.{IsReduced, normalize-IsReduced, ◌∼◌}
use keri_ts.Threshold.Weight.{parse_weight, format_weight}
use keri_ts.Threshold.Weight.RoundTrip.{IsWeight, parse-IsWeight, parse-format}
use keri_ts.Threshold.Weighted.{
  WeightedThreshold, Clause, single, nested, token, group, members, entry, normalize_clauses,
}
use keri_ts.Threshold.Tholder.{
  Tholder, Sith, text, count, clauses_of, sith, weights, of_clauses, numeric_tholder,
  weighted_tholder, normalize_threshold_input, satisfy,
}
use keri_ts.Threshold.Tholder.Weights.{is_satisfied}
use keri_ts.Threshold.Tholder.Normal.{ClauseIsNormal, normalize-IsNormal}
use keri_ts.Threshold.Tholder.Satisfy.{slots_of, satisfy_weighted, satisfy_mono, satisfy_full}
use keri_ts.Threshold.Tholder.Reload.{reload}

abbrev half : Rational
half = record { numerator = 1; denominator = 2 }

abbrev third : Rational
third = record { numerator = 1; denominator = 3 }

normalize-IsReduced_example :
    (r : Rational) × (normalize_rational 6 4 ≡ ok r) × IsReduced r × (r ∼ (6, 4))
normalize-IsReduced_example = normalize-IsReduced 6 4 (omega arith)

-- " 2/4"
abbrev two_quarters : Text
two_quarters = b' ' ∷ b'2' ∷ b'/' ∷ b'4' ∷ []

half_parsed : parse_weight two_quarters ≡ ok half
unfolding parse_weight keri_ts.Prelude.Text.trim keri_ts.Prelude.Text.parse_digits
    keri_ts.Prelude.Text.minus keri_ts.Prelude.Text.split_at normalize_rational
half_parsed = refl

parse-IsWeight_example : IsWeight half
parse-IsWeight_example = parse-IsWeight two_quarters half half_parsed

parse-format_example : parse_weight (format_weight half) ≡ ok half
parse-format_example = parse-format half (parse-IsWeight two_quarters half half_parsed)

-- ["1/2", {"1/2": ["1", "1"]}]
abbrev expression : WeightedThreshold
expression =
    entry (token (b'1' ∷ b'/' ∷ b'2' ∷ []))
    ∷ entry
        (group ((b'1' ∷ b'/' ∷ b'2' ∷ [], members (some (b'1' ∷ []) ∷ some (b'1' ∷ []) ∷ [])) ∷ []))
    ∷ []

abbrev one : Rational
one = record { numerator = 1; denominator = 1 }

abbrev normal : List Clause
normal = (single half ∷ nested half (one ∷ one ∷ []) ∷ []) ∷ []

expression-normal : normalize_clauses expression ≡ ok normal
unfolding normalize_clauses parse_weight keri_ts.Prelude.Text.trim keri_ts.Prelude.Text.parse_digits
    keri_ts.Prelude.Text.minus keri_ts.Prelude.Text.split_at normalize_rational add_rationals
    keri_ts.Threshold.Rational.at_least_one
expression-normal = refl

normalize-IsNormal_example : All ClauseIsNormal normal
normalize-IsNormal_example = normalize-IsNormal expression normal expression-normal

abbrev tholder : Tholder
tholder = of_clauses normal

expression_tholder : weighted_tholder expression ≡ ok tholder
unfolding weighted_tholder normalize_clauses parse_weight keri_ts.Prelude.Text.trim
    keri_ts.Prelude.Text.parse_digits keri_ts.Prelude.Text.minus keri_ts.Prelude.Text.split_at
    normalize_rational add_rationals keri_ts.Threshold.Rational.at_least_one
expression_tholder = refl

abbrev signers : List ℕ
signers = 2 ∷ 0 ∷ 2 ∷ []

satisfy_weighted_example :
    satisfy tholder signers
    ≡ ok (
        not (length signers == 0)
        && is_satisfied (slots_of tholder.size signers) 0 (clauses_of tholder.thold))
satisfy_weighted_example = satisfy_weighted expression tholder signers expression_tholder

pair_satisfies : satisfy tholder (0 ∷ 1 ∷ []) ≡ ok true
unfolding satisfy keri_ts.Threshold.Tholder.signed keri_ts.Prelude.Sort.sort_by
    keri_ts.Prelude.Sets.of_list keri_ts.Threshold.Weighted.slots
    keri_ts.Threshold.Rational.at_least_one
pair_satisfies = refl

pair_included : (i : ℕ) → has i (0 ∷ 1 ∷ []) ≡ true → has i (1 ∷ 2 ∷ 0 ∷ []) ≡ true
unfolding has
pair_included i h = ground arith

satisfy_mono_example : satisfy tholder (1 ∷ 2 ∷ 0 ∷ []) ≡ ok true
satisfy_mono_example =
    satisfy_mono expression tholder (0 ∷ 1 ∷ []) (1 ∷ 2 ∷ 0 ∷ []) expression_tholder pair_included
      pair_satisfies

all_sign : (i : ℕ) → i < tholder.size → has i (0 ∷ 1 ∷ 2 ∷ 3 ∷ []) ≡ true
unfolding has keri_ts.Threshold.Weighted.slots
all_sign i h = ground arith

satisfy_full_example : satisfy tholder (0 ∷ 1 ∷ 2 ∷ 3 ∷ []) ≡ ok true
satisfy_full_example =
    satisfy_full expression tholder (0 ∷ 1 ∷ 2 ∷ 3 ∷ []) expression_tholder (omega arith) all_sign

abbrev two : Tholder
two = record {
  weighted = false;
  num = some 2;
  size = 2;
  thold = count 2;
  semantic = text (b'2' ∷ []);
}

two_tholder : numeric_tholder 2 ≡ ok two
unfolding numeric_tholder keri_ts.Prelude.Text.to_string
two_tholder = refl

-- A reader of JSON that refuses every text.
abbrev no_json : Text → Result ThresholdError WeightedThreshold
no_json _ = err invalid_entry

expression_input : normalize_threshold_input no_json (sith (weights expression)) ≡ ok tholder
unfolding normalize_threshold_input normalize_clauses parse_weight keri_ts.Prelude.Text.trim
    keri_ts.Prelude.Text.parse_digits keri_ts.Prelude.Text.minus keri_ts.Prelude.Text.split_at
    normalize_rational add_rationals keri_ts.Threshold.Rational.at_least_one
expression_input = refl

reload_example : normalize_threshold_input no_json (sith tholder.semantic) ≡ ok tholder
reload_example = reload no_json (sith (weights expression)) tholder expression_input
