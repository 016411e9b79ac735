-- ===== src/Threshold/Tholder/Normal.antt =====
-- What `normalizeWeightedInput` guarantees of the clauses that it returns.
use mathlib.Core.Path.{subst}
use keri_ts.Prelude.{
  ◌<◌, ◌≡◌, refl, ap, ◌∙◌, sym, Bool, true, false, List, [], ◌∷◌, map, arith, All, Option, none,
  some, if◌then◌else◌,
}
use keri_ts.Prelude.Result.{ok, guard, map_result, ◌>>=◌, >>=-eq-ok, >>=-cases, ok-injective}
use keri_ts.Prelude.Text.{Text}
use keri_ts.Threshold.Error.{ThresholdError, nested_sum_below_one, clause_sum_below_one}
use keri_ts.Threshold.Rational.{Rational, add_if, add_rationals, at_least_one, rational_zero}
use keri_ts.Threshold.Weight.{parse_weight}
use keri_ts.Threshold.Weight.RoundTrip.{IsWeight, parse-IsWeight}
use keri_ts.Threshold.Weighted.{
  Nested, members, not_array, ClauseEntry, token, group, other, Entry, single, nested, Clause,
  WeightedThreshold, contribution, sum_rationals, parse_member, normalize_group, normalize_entry,
  normalize_entries, normalize_clause, normalize_clauses, wrap_single_clause, as_entry, as_clause,
}
use keri_ts.Threshold.Weighted.Sums.{
  Fraction, weigh, reaches, IsSum, IsSum-step, IsSum-none, at_least_one-eq-reaches,
}
use keri_ts.Threshold.Tholder.Weights.{Slots, IsPositive}

abbrev pub every_slot : Slots
every_slot _ = true

abbrev pub total_weight : List Rational → Fraction
total_weight [] = (0, 1)
total_weight (w ∷ ws) = weigh true w (total_weight ws)

-- The weights lie in [0, 1] in lowest terms, and the members of a group together reach one.
abbrev pub EntryIsNormal : Entry → Type 0
EntryIsNormal (single w) = IsWeight w
EntryIsNormal (nested w ws) = IsWeight w × All IsWeight ws × (reaches (total_weight ws) ≡ true)

-- A clause of such entries which together reach one.
pub record ClauseIsNormal (c : Clause) : Type 0 where
  pub entries : All EntryIsNormal c
  pub reached : reaches (total_weight (map contribution c)) ≡ true

pub weights-IsPositive : (ws : List Rational) → All IsWeight ws → All IsPositive ws
weights-IsPositive [] h = tt
weights-IsPositive (w ∷ ws) h = (h.0.reduced.positive, weights-IsPositive ws h.1)

pub total-pos : (ws : List Rational) → All IsPositive ws → 0 < (total_weight ws).1
total-pos [] h = omega arith
total-pos (w ∷ ws) h = grind (arith, total-pos ws h.1, h.0)

pub sum_rationals-IsSum :
    (start : Rational) (ws : List Rational)
    → 0 < start.denominator
    → All IsPositive ws
    → (r : Rational) × (sum_rationals start ws ≡ ok r) × IsSum start (total_weight ws) r
unfolding sum_rationals add_if
sum_rationals-IsSum start [] hs h = (start, refl, IsSum-none start hs)
sum_rationals-IsSum start (w ∷ ws) hs h =
    let (next, e, hn, extend) = IsSum-step true start w (total_weight ws) hs h.0 in
    let (r, e', sum) = sum_rationals-IsSum next ws hn h.1 in
    (r, ap (λ m. m >>= λ n. sum_rationals n ws) e ∙ e', extend r sum)

-- The test on the sum of the weights, from zero.
pub sum_test :
    (ws : List Rational) (r : Rational)
    → All IsPositive ws
    → sum_rationals rational_zero ws ≡ ok r
    → at_least_one r ≡ reaches (total_weight ws)
sum_test ws r h e =
    let (r', e', sum) = sum_rationals-IsSum rational_zero ws (omega arith) h in
    let same : r' ≡ r = cc (e, e') in
    ap at_least_one (sym same) ∙ at_least_one-eq-reaches (total_weight ws) r' (total-pos ws h) sum

guard-ok : (b : Bool) (e : ThresholdError) {u : Unit {0}} → guard b e ≡ ok u → b ≡ true
guard-ok true e h = refl
guard-ok false e h = cc

map_member-IsWeight :
    (ms : List (Option Text)) (ws : List Rational)
    → map_result parse_member ms ≡ ok ws
    → All IsWeight ws
unfolding map_result parse_member
map_member-IsWeight [] [] h = tt
map_member-IsWeight [] (w ∷ ws) h = cc
map_member-IsWeight (none ∷ ms) ws h = cc
map_member-IsWeight (some m ∷ ms) ws h =
    let (w, e, h') =
      >>=-eq-ok (parse_weight m) (λ y. map_result parse_member ms >>= λ ys. ok (y ∷ ys)) h in
    let (ws', e', done) = >>=-eq-ok (map_result parse_member ms) (λ ys. ok (w ∷ ys)) h' in
    let all : All IsWeight (w ∷ ws') = (parse-IsWeight m w e, map_member-IsWeight ms ws' e') in
    rw (let same : ws ≡ w ∷ ws' = cc done in same) all

group-IsNormal :
    (key : Text) (value : Nested) (n : Entry) → normalize_group key value ≡ ok n → EntryIsNormal n
unfolding normalize_group
group-IsNormal key not_array n h = cc
group-IsNormal key (members []) n h = cc
group-IsNormal key (members (first ∷ more)) n h = >>=-cases (parse_weight key) _ h λ w ew h1.
    >>=-cases (map_result parse_member (first ∷ more)) _ h1 λ ws ews h2.
      >>=-cases (sum_rationals rational_zero ws) _ h2 λ sum es h3.
        >>=-cases (guard (at_least_one sum) nested_sum_below_one) _ h3 λ u eg h4.
          let all : All IsWeight ws = map_member-IsWeight (first ∷ more) ws ews in
          subst EntryIsNormal (ok-injective h4) (
            parse-IsWeight key w ew,
            all,
            sym (sum_test ws sum (weights-IsPositive ws all) es)
                ∙ guard-ok (at_least_one sum) nested_sum_below_one eg,
          )

entry-IsNormal : (item : ClauseEntry) (n : Entry) → normalize_entry item ≡ ok n → EntryIsNormal n
unfolding normalize_entry
entry-IsNormal (token t) n h =
    >>=-cases (parse_weight t) _ h
      λ w ew done. subst EntryIsNormal (ok-injective done) (parse-IsWeight t w ew)
entry-IsNormal (group []) n h = cc
entry-IsNormal (group ((key, value) ∷ [])) n h = group-IsNormal key value n h
entry-IsNormal (group (_ ∷ _ ∷ _)) n h = cc
entry-IsNormal other n h = cc

pub contribution-pos : (n : Entry) → EntryIsNormal n → IsPositive (contribution n)
contribution-pos (single w) h = h.reduced.positive
contribution-pos (nested w ws) h = h.0.reduced.positive

entries-IsNormal :
    (items : List ClauseEntry) (top : Rational) (out : Clause × Rational)
    → 0 < top.denominator
    → normalize_entries top items ≡ ok out
    → All EntryIsNormal out.0 × IsSum top (total_weight (map contribution out.0)) out.1
unfolding normalize_entries add_if
entries-IsNormal [] top out ht h =
    subst
      (λ (o : Clause × Rational).
        All EntryIsNormal o.0 × IsSum top (total_weight (map contribution o.0)) o.1)
      (ok-injective h) (tt, IsSum-none top ht)
entries-IsNormal (item ∷ items) top out ht h = >>=-cases (normalize_entry item) _ h λ n en h1.
    >>=-cases (add_rationals top (contribution n)) _ h1 λ next ea h2.
      >>=-cases (normalize_entries next items) _ h2 λ rest er h3.
        let normal : EntryIsNormal n = entry-IsNormal item n en in
        let (next', e', hn, extend) =
          IsSum-step true top (contribution n) (total_weight (map contribution rest.0)) ht
            (contribution-pos n normal) in
        let same : next' ≡ next = ok-injective (sym e' ∙ ea) in
        let (all, sum) = entries-IsNormal items next rest (subst IsPositive same hn) er in
        subst
          (λ (o : Clause × Rational).
            All EntryIsNormal o.0 × IsSum top (total_weight (map contribution o.0)) o.1)
          (ok-injective h3)
          (
            (normal, all),
            extend rest.1 (
                subst (λ x. IsSum x (total_weight (map contribution rest.0)) rest.1) (sym same)
                  sum),
          )

pub contributions-pos : (c : Clause) → All EntryIsNormal c → All IsPositive (map contribution c)
contributions-pos [] h = tt
contributions-pos (n ∷ c) h = (contribution-pos n h.0, contributions-pos c h.1)

pub clause-IsNormal :
    (items : List ClauseEntry) (c : Clause) → normalize_clause items ≡ ok c → ClauseIsNormal c
unfolding normalize_clause
clause-IsNormal [] c h = cc
clause-IsNormal (first ∷ more) c h =
    >>=-cases (normalize_entries rational_zero (first ∷ more)) _ h λ out eo h1.
      >>=-cases (guard (at_least_one out.1) clause_sum_below_one) _ h1 λ u eg h2.
        let (all, sum) = entries-IsNormal (first ∷ more) rational_zero out (omega arith) eo in
        let total = total_weight (map contribution out.0) in
        subst ClauseIsNormal (ok-injective h2) (record {
          entries = all;
          reached =
              sym (
                at_least_one-eq-reaches total out.1
                  (total-pos (map contribution out.0) (contributions-pos out.0 all)) sum)
              ∙ guard-ok (at_least_one out.1) clause_sum_below_one eg;
        })

clauses-IsNormal :
    (items : List (List ClauseEntry)) (cs : List Clause)
    → map_result normalize_clause items ≡ ok cs
    → All ClauseIsNormal cs
unfolding map_result
clauses-IsNormal [] cs h = subst (All ClauseIsNormal) (ok-injective h) tt
clauses-IsNormal (i ∷ items) cs h = >>=-cases (normalize_clause i) _ h λ c ec h1.
    >>=-cases (map_result normalize_clause items) _ h1 λ rest er h2.
      subst (All ClauseIsNormal) (ok-injective h2)
        (clause-IsNormal i c ec, clauses-IsNormal items rest er)

-- Whatever `normalizeWeightedInput` accepts, every weight is between 0 and 1 in lowest terms, the
-- members of every group together reach one, and so do the entries of every clause.
pub normalize-IsNormal :
    (w : WeightedThreshold) (cs : List Clause) → normalize_clauses w ≡ ok cs → All ClauseIsNormal cs
unfolding normalize_clauses
normalize-IsNormal [] cs h = cc
normalize-IsNormal (first ∷ more) cs h =
    clauses-IsNormal
      (if wrap_single_clause (first ∷ more)
        then map as_entry (first ∷ more) ∷ []
        else map as_clause (first ∷ more))
      cs h
