-- ===== src/Threshold/Error.antt =====
-- What the threshold code throws (packages/cesr/src/primitives/tholder.ts), one constructor for
-- each message.
pub data ThresholdError : Type 0 where
  zero_denominator empty_weight invalid_weight weight_out_of_range : ThresholdError
  empty_expression empty_clause group_without_members : ThresholdError
  invalid_entry group_key_count invalid_member empty_threshold invalid_number : ThresholdError
  nested_sum_below_one clause_sum_below_one unsupported_width : ThresholdError
