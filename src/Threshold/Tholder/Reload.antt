-- ===== src/Threshold/Tholder/Reload.antt =====
-- A threshold rebuilt from its own semantic form is the threshold: `new Tholder({ sith: t.sith })`.
use mathlib.Core.Path.{subst}
use keri_ts.Prelude.{
  ℕ, ◌<◌, ◌≡◌, refl, ap, ◌∙◌, sym, true, false, List, [], ◌∷◌, map, arith, All, Bool-cases,
  Option-cases, inl, inr, some, ◌==◌,
}
use keri_ts.Prelude.Result.{Result, ok, map_result, ◌>>=◌, >>=-cases, ok-injective}
use keri_ts.Prelude.Text.{Text, is_space, trim, to_string, parse_digits}
use keri_ts.Prelude.Text.Digits.{parse-to_string, All-to_string, to_string_cons}
use keri_ts.Threshold.Error.{ThresholdError}
use keri_ts.Threshold.Rational.{Rational, add_if, at_least_one, rational_zero}
use keri_ts.Threshold.Weight.{format_weight}
use keri_ts.Threshold.Weight.RoundTrip.{IsWeight, IsInk, trim-ink, parse-format}
use keri_ts.Threshold.Weighted.{
  members, ClauseEntry, entry, clause, Entry, single, nested, Clause, WeightedThreshold,
  contribution, parse_member, normalize_group, normalize_entry, normalize_entries, normalize_clause,
  normalize_clauses, wrap_single_clause, as_entry, as_clause, format_entry, semantic_form,
}
use keri_ts.Threshold.Weighted.Sums.{IsSum, IsSum-step, IsSum-none, at_least_one-eq-reaches}
use keri_ts.Threshold.Tholder.{
  Tholder, Sith, text, weights, ThresholdInput, sith, bigint, of_clauses, numeric_tholder,
  weighted_tholder, text_tholder, normalize_threshold_input,
}
use keri_ts.Threshold.Tholder.Normal.{
  total_weight, EntryIsNormal, ClauseIsNormal, weights-IsPositive, sum_rationals-IsSum, sum_test,
  normalize-IsNormal, contribution-pos, contributions-pos, total-pos,
}

members_reload :
    (ws : List Rational)
    → All IsWeight ws
    → map_result parse_member (map (λ w. some (format_weight w)) ws) ≡ ok ws
unfolding map_result parse_member
members_reload [] h = refl
members_reload (w ∷ ws) h = rw (parse-format w h.0) (rw (members_reload ws h.1) refl)

group_reload :
    (w : Rational) (ws : List Rational)
    → EntryIsNormal (nested w ws)
    → normalize_group (format_weight w) (members (map (λ v. some (format_weight v)) ws))
      ≡ ok (nested w ws)
unfolding normalize_group
group_reload w [] h = absurd (cc (h.2))
group_reload w (v ∷ ws) h =
    let (sum, e, _) =
      sum_rationals-IsSum rational_zero (v ∷ ws) (omega arith) (weights-IsPositive (v ∷ ws) h.1) in
    rw (parse-format w h.0) (
      rw (members_reload (v ∷ ws) h.1)
        (rw e (rw (sum_test (v ∷ ws) sum (weights-IsPositive (v ∷ ws) h.1) e ∙ h.2) refl)))

entry_reload : (n : Entry) → EntryIsNormal n → normalize_entry (format_entry n) ≡ ok n
unfolding normalize_entry format_entry
entry_reload (single w) h = rw (parse-format w h)
entry_reload (nested w ws) h = group_reload w ws h

entries_reload :
    (c : Clause) (top : Rational)
    → 0 < top.denominator
    → All EntryIsNormal c
    → (r : Rational) × (normalize_entries top (map format_entry c) ≡ ok (c, r))
      × IsSum top (total_weight (map contribution c)) r
unfolding normalize_entries add_if
entries_reload [] top ht h = (top, refl, IsSum-none top ht)
entries_reload (n ∷ c) top ht h =
    let (next, e, hn, extend) =
      IsSum-step true top (contribution n) (total_weight (map contribution c)) ht
        (contribution-pos n h.0) in
    let (r, e', sum) = entries_reload c next hn h.1 in
    (r, rw (entry_reload n h.0) (rw e (rw e')), extend r sum)

clause_reload : (c : Clause) → ClauseIsNormal c → normalize_clause (map format_entry c) ≡ ok c
unfolding normalize_clause
clause_reload [] h = absurd (cc (h.reached))
clause_reload (n ∷ c) h =
    let total = total_weight (map contribution (n ∷ c)) in
    let (r, e, sum) = entries_reload (n ∷ c) rational_zero (omega arith) h.entries in
    let full : at_least_one r ≡ true =
      at_least_one-eq-reaches total r
        (total-pos (map contribution (n ∷ c)) (contributions-pos (n ∷ c) h.entries)) sum
      ∙ h.reached in
    rw e (rw full refl)

clauses_reload :
    (cs : List Clause)
    → All ClauseIsNormal cs
    → map_result normalize_clause (map (map format_entry) cs) ≡ ok cs
unfolding map_result
clauses_reload [] h = refl
clauses_reload (c ∷ cs) h = rw (clause_reload c h.0) (rw (clauses_reload cs h.1))

as_entries : (c : Clause) → map as_entry (map (λ n. entry (format_entry n)) c) ≡ map format_entry c
as_entries [] = refl
as_entries (n ∷ c) = ap (λ (l : List ClauseEntry). format_entry n ∷ l) (as_entries c)

as_clauses :
    (cs : List Clause)
    → map as_clause (map (λ c. clause (map format_entry c)) cs) ≡ map (map format_entry) cs
as_clauses [] = refl
as_clauses (c ∷ cs) = ap (λ (l : List (List ClauseEntry)). map format_entry c ∷ l) (as_clauses cs)

no_wrap :
    (cs : List Clause) → wrap_single_clause (map (λ c. clause (map format_entry c)) cs) ≡ false
unfolding wrap_single_clause
no_wrap [] = refl
no_wrap (c ∷ cs) = no_wrap cs

semantic_reload :
    (c : Clause) (cs : List Clause)
    → All ClauseIsNormal (c ∷ cs)
    → normalize_clauses (semantic_form (c ∷ cs)) ≡ ok (c ∷ cs)
unfolding normalize_clauses semantic_form
semantic_reload [] [] h = absurd (cc (h.0.reached))
semantic_reload (n ∷ c) [] h = rw (as_entries c) (clauses_reload ((n ∷ c) ∷ []) h)
semantic_reload c (d ∷ cs) h = rw (no_wrap cs) (rw (as_clauses cs) (clauses_reload (c ∷ d ∷ cs) h))

not_none :
    (i : List ClauseEntry) (is : List (List ClauseEntry))
    → ¬ (map_result normalize_clause (i ∷ is) ≡ ok [])
unfolding map_result
not_none i is h =
    >>=-cases (normalize_clause i) _ h
      λ c ec h1. >>=-cases (map_result normalize_clause is) _ h1 λ rest er h2. cc

some_clause : (w : WeightedThreshold) → ¬ (normalize_clauses w ≡ ok [])
unfolding normalize_clauses
some_clause [] h = cc
some_clause (first ∷ more) h = elim (Bool-cases (wrap_single_clause (first ∷ more))) [
  | inl wrapped ↦ not_none (map as_entry (first ∷ more)) [] (rw (wrapped, normalize_clauses) at h)
  | inr plain ↦ not_none (as_clause first) (map as_clause more) (rw (plain, normalize_clauses) at h)
]

semantic-numeric :
    (value : ℕ) (t : Tholder)
    → numeric_tholder value ≡ ok t
    → t.semantic ≡ text (to_string 16 value)
unfolding numeric_tholder
semantic-numeric value t h = ground (arith, h)

module _ (parse_json : Text → Result ThresholdError WeightedThreshold) where
  weighted_reload :
      (w : WeightedThreshold) (t : Tholder)
      → weighted_tholder w ≡ ok t
      → normalize_threshold_input parse_json (sith t.semantic) ≡ ok t
  unfolding weighted_tholder normalize_threshold_input
  weighted_reload w t h =
      >>=-cases (normalize_clauses w) _ h λ cs e done. built cs e (ok-injective done)
    where
      built :
          (cs : List Clause)
          → normalize_clauses w ≡ ok cs
          → of_clauses cs ≡ t
          → normalize_threshold_input parse_json (sith t.semantic) ≡ ok t
      built [] e same = absurd (some_clause w e)
      built (c ∷ cs) e same =
          subst (λ t. normalize_threshold_input parse_json (sith t.semantic) ≡ ok t) same
            (ap (λ m. m >>= λ normal. ok (of_clauses normal))
              (semantic_reload c cs (normalize-IsNormal w (c ∷ cs) e)))

  hex-IsInk : (value : ℕ) → All IsInk (to_string 16 value)
  unfolding is_space
  hex-IsInk = All-to_string 16 (omega arith) (omega arith) IsInk (λ d h. ground arith)

  hex-no_bracket : (value : ℕ) → All (λ c. (c == b'[') ≡ false) (to_string 16 value)
  hex-no_bracket =
      All-to_string 16 (omega arith) (omega arith) (λ c. (c == b'[') ≡ false) (λ d h. ground arith)

  number_text :
      (c value : ℕ) (s : Text)
      → (c == b'[') ≡ false
      → parse_digits 16 (c ∷ s) ≡ some value
      → text_tholder parse_json (c ∷ s) ≡ numeric_tholder value
  unfolding text_tholder
  number_text c value s plain digits = rw plain (rw digits refl)

  numeric_reload :
      (value : ℕ) (t : Tholder)
      → numeric_tholder value ≡ ok t
      → normalize_threshold_input parse_json (sith t.semantic) ≡ ok t
  unfolding normalize_threshold_input
  numeric_reload value t h =
      let (c, s, e) = to_string_cons 16 (omega arith) (omega arith) value in
      ap (λ (x : Sith). normalize_threshold_input parse_json (sith x)) (semantic-numeric value t h)
      ∙ ap (text_tholder parse_json) (trim-ink (to_string 16 value) (hex-IsInk value) ∙ e)
      ∙ number_text c value s (subst (All (λ c. (c == b'[') ≡ false)) e (hex-no_bracket value)).0 (
          subst (λ t. parse_digits 16 t ≡ some value) e
            (parse-to_string 16 (omega arith) (omega arith) value))
      ∙ h

  text_reload :
      (s : Text) (t : Tholder)
      → text_tholder parse_json s ≡ ok t
      → normalize_threshold_input parse_json (sith t.semantic) ≡ ok t
  unfolding text_tholder
  text_reload [] t h = cc
  text_reload (c ∷ s) t h = elim (Bool-cases (c == b'[')) [
    | inl bracket ↦
        >>=-cases (parse_json (c ∷ s)) _ (rw (bracket, text_tholder) at h)
          λ w e done. weighted_reload w t done
    | inr plain ↦ elim (Option-cases (parse_digits 16 (c ∷ s))) [
      | inl no_number ↦ absurd (ground (arith, h, plain, no_number))
      | inr (value, digits) ↦ numeric_reload value t (sym (number_text c value s plain digits) ∙ h)
    ]
  ]

  -- A threshold built from any input is built again, the same in every field, from its semantic
  -- form.
  pub reload :
      (input : ThresholdInput) (t : Tholder)
      → normalize_threshold_input parse_json input ≡ ok t
      → normalize_threshold_input parse_json (sith t.semantic) ≡ ok t
  unfolding normalize_threshold_input
  reload (bigint value) t h = numeric_reload value t h
  reload (sith (weights w)) t h = weighted_reload w t h
  reload (sith (text s)) t h = text_reload (trim s) t h
