-- ===== src/Threshold/Tholder.antt =====
-- packages/cesr/src/primitives/tholder.ts: `class Tholder` built from a semantic threshold, and
-- `satisfy`. The wire form (`limen`) is not modelled: of the constructor's inputs the semantic ones
-- are, with `JSON.parse` of a text that begins with a bracket as a parameter.
pub mod Slots
pub mod Weights
pub mod Monotone
pub mod Normal
pub mod Satisfy
pub mod Reload
use keri_ts.Prelude.{
  ℕ, zero, suc, ◌+◌, ◌-◌, ◌^◌, Bool, true, false, not, ◌&&◌, Option, none, some, List, [], ◌∷◌, ltb,
  leb, ◌==◌, if◌then◌else◌, length, get_elem?, set, replicate,
}
use keri_ts.Prelude.Sets.{nat_eq, of_list}
use keri_ts.Prelude.Sort.{sort_by}
use keri_ts.Prelude.Result.{Result, ok, err, ◌>>=◌}
use keri_ts.Prelude.Text.{Text, trim, to_string, parse_digits}
use keri_ts.Threshold.Error.{ThresholdError, empty_threshold, invalid_number, unsupported_width}
use keri_ts.Threshold.Rational.{Rational, add_if, at_least_one, rational_zero}
use keri_ts.Threshold.Weighted.{
  WeightedThreshold, Entry, single, nested, Clause, normalize_clauses, semantic_form, slots,
}

-- `ThresholdSith`
pub data Sith : Type 0 where
  text : Text → Sith
  weights : WeightedThreshold → Sith

-- `ThresholdInput`: a number or bigint that is not negative, or a semantic expression.
pub data ThresholdInput : Type 0 where
  bigint : ℕ → ThresholdInput
  sith : Sith → ThresholdInput

-- `bigint | NormalizedWeightedThreshold[]`
pub data Thold : Type 0 where
  count : ℕ → Thold
  clauses : List Clause → Thold

pub record Tholder : Type 0 where
  pub weighted : Bool
  pub num : Option ℕ
  pub size : ℕ
  pub thold : Thold
  pub semantic : Sith

abbrev pub max_safe : ℕ
max_safe = 2 ^ 53 - 1

-- The largest capacity of the numeric codes is 17 bytes: beyond that `chooseNumberCode` throws.
abbrev pub too_wide : ℕ → Bool
too_wide value = leb (2 ^ 136) value

unfoldable pub numeric_tholder : ℕ → Result ThresholdError Tholder
numeric_tholder value =
    if too_wide value
    then err unsupported_width
    else ok (record {
      weighted = false;
      num = some value;
      size = if ltb max_safe value then max_safe else value;
      thold = count value;
      semantic = text (to_string 16 value);
    })

abbrev pub of_clauses : List Clause → Tholder
of_clauses normal = record {
  weighted = true;
  num = none;
  size = slots normal;
  thold = clauses normal;
  semantic = weights (semantic_form normal);
}

unfoldable pub weighted_tholder : WeightedThreshold → Result ThresholdError Tholder
weighted_tholder value = normalize_clauses value >>= λ normal. ok (of_clauses normal)

module _ (parse_json : Text → Result ThresholdError WeightedThreshold) where
  -- A trimmed text: a bracket begins a weighted expression, and all else is a hexadecimal number.
  unfoldable pub text_tholder : Text → Result ThresholdError Tholder
  unfolding numeric_tholder weighted_tholder
  text_tholder [] = err empty_threshold
  text_tholder (c ∷ s) =
      let number : Result ThresholdError Tholder = elim (parse_digits 16 (c ∷ s)) [
        | none ↦ err invalid_number
        | some value ↦ numeric_tholder value
      ] in
      if c == b'[' then (parse_json (c ∷ s) >>= weighted_tholder) else number

  unfoldable pub normalize_threshold_input : ThresholdInput → Result ThresholdError Tholder
  unfolding text_tholder
  normalize_threshold_input (bigint value) = numeric_tholder value
  normalize_threshold_input (sith (text t)) = text_tholder (trim t)
  normalize_threshold_input (sith (weights w)) = weighted_tholder w

-- `for (const index of ordered) if (index >= 0 && index < sats.length) sats[index] = true`
unfoldable pub mark_all : List Bool → List ℕ → List Bool
mark_all sats [] = sats
mark_all sats (index ∷ rest) =
    mark_all (if ltb index (length sats) then set sats index true else sats) rest

-- `if (sats[offset])`
unfoldable pub signed : List Bool → ℕ → Bool
signed sats offset = elim (get_elem? sats offset) [ none ↦ false | some b ↦ b ]

-- The loop over the members of a group: the sum of those that signed, and the next offset.
unfoldable pub member_loop :
    List Bool → Rational → ℕ → List Rational → Result ThresholdError (Rational × ℕ)
unfolding add_if
member_loop sats sum offset [] = ok (sum, offset)
member_loop sats sum offset (member ∷ rest) = do
  next ← add_if (signed sats offset) sum member
  member_loop sats next (offset + 1) rest

-- The loop over the entries of a clause.
unfoldable pub clause_loop :
    List Bool → Rational → ℕ → Clause → Result ThresholdError (Rational × ℕ)
unfolding member_loop
clause_loop sats sum offset [] = ok (sum, offset)
clause_loop sats sum offset (single weight ∷ rest) = do
  next ← add_if (signed sats offset) sum weight
  clause_loop sats next (offset + 1) rest
clause_loop sats sum offset (nested weight members ∷ rest) = do
  reached ← member_loop sats rational_zero offset members
  next ← add_if (at_least_one reached.0) sum weight
  clause_loop sats next reached.1 rest

-- The loop over the clauses: the first that falls short of one ends it.
unfoldable pub satisfy_loop : List Bool → ℕ → List Clause → Result ThresholdError Bool
unfolding clause_loop
satisfy_loop sats offset [] = ok true
satisfy_loop sats offset (clause ∷ rest) = do
  reached ← clause_loop sats rational_zero offset clause
  let others = satisfy_loop sats reached.1 rest
  if at_least_one reached.0 then others else ok false

-- `this._thold as NormalizedWeightedThreshold[]`, of a weighted threshold
abbrev pub clauses_of : Thold → List Clause
clauses_of (count _) = []
clauses_of (clauses cs) = cs

unfoldable pub enough : Option ℕ → ℕ → Bool
enough none signers = false
enough (some num) signers = ltb 0 num && leb num signers

unfoldable pub satisfy : Tholder → List ℕ → Result ThresholdError Bool
unfolding satisfy_loop mark_all enough
satisfy t indices =
    if not t.weighted
    then ok (enough t.num (length indices))
    else if length indices == 0
    then ok false
    else let ordered = sort_by (λ i. i) (of_list indices) in
      satisfy_loop (mark_all (replicate t.size false) ordered) 0 (clauses_of t.thold)
