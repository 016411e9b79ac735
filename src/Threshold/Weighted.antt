-- ===== src/Threshold/Weighted.antt =====
-- packages/cesr/src/primitives/tholder.ts: weighted expressions, `normalizeWeightedInput`.
pub mod Sums
use keri_ts.Prelude.{
  ℕ, ◌+◌, Bool, true, false, Option, none, some, List, [], ◌∷◌, map, length, if◌then◌else◌,
}
use keri_ts.Prelude.Result.{Result, ok, err, guard, map_result, ◌>>=◌, ◌>>◌}
use keri_ts.Prelude.Text.{Text}
use keri_ts.Threshold.Error.{
  ThresholdError, empty_expression, empty_clause, group_without_members, invalid_entry,
  group_key_count, invalid_member, nested_sum_below_one, clause_sum_below_one,
}
use keri_ts.Threshold.Rational.{Rational, add_rationals, at_least_one, rational_zero}
use keri_ts.Threshold.Weight.{format_weight, parse_weight}

-- The value of a group's key: an array, whose members are texts or (`none`) something else.
pub data Nested : Type 0 where
  members : List (Option Text) → Nested
  not_array : Nested

-- An item of a clause: a weight, an object with its keys in order, or anything else, an array too.
pub data ClauseEntry : Type 0 where
  token : Text → ClauseEntry
  group : List (Text × Nested) → ClauseEntry
  other : ClauseEntry

-- An item of the outer array.
pub data Item : Type 0 where
  entry : ClauseEntry → Item
  clause : List ClauseEntry → Item

abbrev pub WeightedThreshold : Type 0
WeightedThreshold = List Item

-- `NormalizedClauseEntry`
pub data Entry : Type 0 where
  single : Rational → Entry
  nested : Rational → List Rational → Entry

abbrev pub Clause : Type 0
Clause = List Entry

-- The sum of the weights, added from the left onto `sum`.
unfoldable pub sum_rationals : Rational → List Rational → Result ThresholdError Rational
sum_rationals sum [] = ok sum
sum_rationals sum (member ∷ rest) = do next ← add_rationals sum member; sum_rationals next rest

unfoldable pub parse_member : Option Text → Result ThresholdError Rational
parse_member none = err invalid_member
parse_member (some member) = parse_weight member

unfoldable pub normalize_group : Text → Nested → Result ThresholdError Entry
unfolding sum_rationals parse_member map_result
normalize_group key not_array = err group_without_members
normalize_group key (members []) = err group_without_members
normalize_group key (members (first ∷ more)) = do
  group_weight ← parse_weight key
  weights ← map_result parse_member (first ∷ more)
  member_sum ← sum_rationals rational_zero weights
  guard (at_least_one member_sum) nested_sum_below_one
  ok (nested group_weight weights)

unfoldable pub normalize_entry : ClauseEntry → Result ThresholdError Entry
unfolding normalize_group
normalize_entry (token text) = do weight ← parse_weight text; ok (single weight)
normalize_entry (group ((key, value) ∷ [])) = normalize_group key value
normalize_entry (group _) = err group_key_count
normalize_entry other = err invalid_entry

-- What an entry contributes to its clause.
abbrev pub contribution : Entry → Rational
contribution (single weight) = weight
contribution (nested weight _) = weight

-- The entries of a clause, with the sum of their contributions onto `top_weight`.
unfoldable pub normalize_entries :
    Rational → List ClauseEntry → Result ThresholdError (Clause × Rational)
unfolding normalize_entry
normalize_entries top_weight [] = ok ([], top_weight)
normalize_entries top_weight (item ∷ items) = do
  normal ← normalize_entry item
  next ← add_rationals top_weight (contribution normal)
  rest ← normalize_entries next items
  ok (normal ∷ rest.0, rest.1)

unfoldable pub normalize_clause : List ClauseEntry → Result ThresholdError Clause
unfolding normalize_entries
normalize_clause [] = err empty_clause
normalize_clause (first ∷ more) = do
  normal ← normalize_entries rational_zero (first ∷ more)
  guard (at_least_one normal.1) clause_sum_below_one
  ok normal.0

-- `value.some((entry) => !Array.isArray(entry))`
unfoldable pub wrap_single_clause : WeightedThreshold → Bool
wrap_single_clause [] = false
wrap_single_clause (entry _ ∷ _) = true
wrap_single_clause (clause _ ∷ items) = wrap_single_clause items

-- An item of the outer array, where that array is taken for a clause.
abbrev pub as_entry : Item → ClauseEntry
as_entry (entry e) = e
as_entry (clause _) = other

-- An item of the outer array, where every item is a clause.
abbrev pub as_clause : Item → List ClauseEntry
as_clause (entry _) = []
as_clause (clause c) = c

unfoldable pub normalize_clauses : WeightedThreshold → Result ThresholdError (List Clause)
unfolding normalize_clause wrap_single_clause map_result
normalize_clauses [] = err empty_expression
normalize_clauses (first ∷ more) =
    let items : WeightedThreshold = first ∷ more in
    map_result normalize_clause
      (if wrap_single_clause items then map as_entry items ∷ [] else map as_clause items)

-- The canonical semantic form.
unfoldable pub format_entry : Entry → ClauseEntry
format_entry (single weight) = token (format_weight weight)
format_entry (nested weight weights) =
    group ((format_weight weight, members (map (λ w. some (format_weight w)) weights)) ∷ [])

unfoldable pub semantic_form : List Clause → WeightedThreshold
unfolding format_entry
semantic_form (only ∷ []) = map (λ e. entry (format_entry e)) only
semantic_form clauses = map (λ c. clause (map format_entry c)) clauses

-- Signer slots: one for each weight, and one for each member of a group.
unfoldable pub entry_slots : Entry → ℕ
entry_slots (single _) = 1
entry_slots (nested _ weights) = length weights

unfoldable pub clause_slots : Clause → ℕ
unfolding entry_slots
clause_slots [] = 0
clause_slots (e ∷ es) = entry_slots e + clause_slots es

unfoldable pub slots : List Clause → ℕ
unfolding clause_slots
slots [] = 0
slots (c ∷ cs) = clause_slots c + slots cs
