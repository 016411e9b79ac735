-- ===== src/Threshold/Tholder/Satisfy.antt =====
-- What `Tholder.satisfy` decides.
use mathlib.Core.Path.{subst, fun_ext}
use keri_ts.Prelude.{
  ℕ, suc, ◌+◌, ◌<◌, ◌≡◌, refl, ap, ◌∙◌, sym, Bool, true, false, not, ◌&&◌, List, [], ◌∷◌, map,
  length, arith, All, ltb, ◌==◌, replicate,
}
use keri_ts.Prelude.Sets.{nat_eq, has, of_list}
use keri_ts.Prelude.Sort.{sort_by}
use keri_ts.Prelude.Result.{Result, ok, >>=-cases, ok-injective}
use keri_ts.Threshold.Error.{ThresholdError}
use keri_ts.Threshold.Rational.{Rational}
use keri_ts.Threshold.Weighted.{
  Entry, single, nested, Clause, WeightedThreshold, contribution, normalize_clauses, clause_slots,
  slots,
}
use keri_ts.Threshold.Weighted.Sums.{weigh, reaches}
use keri_ts.Threshold.Tholder.{Tholder, of_clauses, weighted_tholder, clauses_of, mark_all, satisfy}
use keri_ts.Threshold.Tholder.Slots.{signed-marked}
use keri_ts.Threshold.Tholder.Weights.{
  Slots, members_weight, clause_weight, is_satisfied, EntryIsPositive, satisfy_loop-eq,
}
use keri_ts.Threshold.Tholder.Monotone.{Extends, is_satisfied_mono}
use keri_ts.Threshold.Tholder.Normal.{
  every_slot, total_weight, EntryIsNormal, ClauseIsNormal, weights-IsPositive, normalize-IsNormal,
}

-- The slots of the signers' indices.
abbrev pub slots_of : ℕ → List ℕ → Slots
slots_of size indices o = ltb o size && has o indices

entry-positive : (n : Entry) → EntryIsNormal n → EntryIsPositive n
entry-positive (single w) h = h.reduced.positive
entry-positive (nested w ws) h = (h.0.reduced.positive, weights-IsPositive ws h.1)

clause-positive : (c : Clause) → All EntryIsNormal c → All EntryIsPositive c
clause-positive [] h = tt
clause-positive (n ∷ c) h = (entry-positive n h.0, clause-positive c h.1)

clauses-positive : (cs : List Clause) → All ClauseIsNormal cs → All (All EntryIsPositive) cs
clauses-positive [] h = tt
clauses-positive (c ∷ cs) h = (clause-positive c h.0.entries, clauses-positive cs h.1)

some_signer : (n : ℕ) → (suc n == 0) ≡ false
some_signer n = ground arith

satisfy_clauses :
    (cs : List Clause) (indices : List ℕ)
    → All ClauseIsNormal cs
    → satisfy (of_clauses cs) indices
      ≡ ok (not (length indices == 0) && is_satisfied (slots_of (slots cs) indices) 0 cs)
unfolding satisfy
satisfy_clauses cs [] h = refl
satisfy_clauses cs (i ∷ is) h =
    let sats = mark_all (replicate (slots cs) false) (sort_by (λ i. i) (of_list (i ∷ is))) in
    rw (some_signer (length is)) (
      satisfy_loop-eq sats 0 cs (clauses-positive cs h)
      ∙ ap (λ (on : Slots). ok (is_satisfied on 0 cs))
          (fun_ext λ o. signed-marked (slots cs) (i ∷ is) o))

-- From the weighted expression `w`, a property of the threshold of its clauses.
from_clauses {ℓ} :
    (P : Tholder → Type ℓ) (w : WeightedThreshold) (t : Tholder)
    → weighted_tholder w ≡ ok t
    → ((cs : List Clause) → normalize_clauses w ≡ ok cs → P (of_clauses cs))
    → P t
unfolding weighted_tholder
from_clauses P w t h k =
    >>=-cases (normalize_clauses w) _ h λ cs e done. subst P (ok-injective done) (k cs e)

-- Of a weighted threshold that was constructed, `satisfy` never throws. It answers yes exactly for
-- signers that are not none at all and whose slots reach one in every clause, a group counting
-- if its own members reach one: repeated, reordered and out-of-range indices change nothing.
pub satisfy_weighted :
    (w : WeightedThreshold) (t : Tholder) (indices : List ℕ)
    → weighted_tholder w ≡ ok t
    → satisfy t indices
      ≡ ok (
          not (length indices == 0)
          && is_satisfied (slots_of t.size indices) 0 (clauses_of t.thold))
satisfy_weighted w t indices h =
    from_clauses
      (λ t.
        satisfy t indices
        ≡ ok (
            not (length indices == 0)
            && is_satisfied (slots_of t.size indices) 0 (clauses_of t.thold)))
      w t h (λ cs e. satisfy_clauses cs indices (normalize-IsNormal w cs e))

not_empty :
    (xs ys : List ℕ)
    → ((i : ℕ) → has i xs ≡ true → has i ys ≡ true)
    → not (length xs == 0) ≡ true
    → not (length ys == 0) ≡ true
unfolding has
not_empty [] ys h e = cc
not_empty (x ∷ xs) [] h e = absurd (let no_member : false ≡ true = h x (ground arith) in cc)
not_empty (x ∷ xs) (y ∷ ys) h e = ground arith

and_left : (a b : Bool) → (a && b) ≡ true → a ≡ true
and_left a b h = ground (arith, h)

and_right : (a b : Bool) → (a && b) ≡ true → b ≡ true
and_right a b h = ground (arith, h)

and_true : (a b : Bool) → a ≡ true → b ≡ true → (a && b) ≡ true
and_true a b ha hb = rw (ha, hb)

-- The slots that count, of signers that include others.
slots_of-Extends :
    (size : ℕ) (xs ys : List ℕ) (offset n : ℕ)
    → ((i : ℕ) → has i xs ≡ true → has i ys ≡ true)
    → Extends (slots_of size xs) (slots_of size ys) offset n
slots_of-Extends size xs ys offset n more o low high h = ground (arith, h, more o)

-- Signers that include those who satisfy a weighted threshold satisfy it too.
pub satisfy_mono :
    (w : WeightedThreshold) (t : Tholder) (xs ys : List ℕ)
    → weighted_tholder w ≡ ok t
    → ((i : ℕ) → has i xs ≡ true → has i ys ≡ true)
    → satisfy t xs ≡ ok true
    → satisfy t ys ≡ ok true
satisfy_mono w t xs ys h more s =
    let was : ◌≡◌ {A = Result ThresholdError Bool} _ (ok true) =
      sym (satisfy_weighted w t xs h) ∙ s in
    let both = ok-injective was in
    satisfy_weighted w t ys h
    ∙ ap ok (
        and_true _ _ (not_empty xs ys more (and_left _ _ both)) (
          is_satisfied_mono (slots_of t.size xs) (slots_of t.size ys) 0 (clauses_of t.thold)
            (slots_of-Extends t.size xs ys 0 (slots (clauses_of t.thold)) more)
            (and_right _ _ both)))

total-every :
    (offset : ℕ) (ws : List Rational) → members_weight every_slot offset ws ≡ total_weight ws
total-every offset [] = refl
total-every offset (w ∷ ws) = ap (weigh true w) (total-every (offset + 1) ws)

clause-every :
    (offset : ℕ) (c : Clause)
    → All EntryIsNormal c
    → clause_weight every_slot offset c ≡ total_weight (map contribution c)
clause-every offset [] h = refl
clause-every offset (single w ∷ es) h = ap (weigh true w) (clause-every (offset + 1) es h.1)
clause-every offset (nested w ws ∷ es) h =
    ap (λ b. weigh b w (clause_weight every_slot (offset + length ws) es))
      (ap reaches (total-every offset ws) ∙ h.0.2)
    ∙ ap (weigh true w) (clause-every (offset + length ws) es h.1)

every_satisfied :
    (offset : ℕ) (cs : List Clause)
    → All ClauseIsNormal cs
    → is_satisfied every_slot offset cs ≡ true
every_satisfied offset [] h = refl
every_satisfied offset (c ∷ cs) h =
    and_true _ _ (ap reaches (clause-every offset c h.0.entries) ∙ h.0.reached)
      (every_satisfied (offset + clause_slots c) cs h.1)

-- Signers of every slot of a weighted threshold satisfy it: no threshold that is accepted is out of
-- reach of its own signers.
pub satisfy_full :
    (w : WeightedThreshold) (t : Tholder) (indices : List ℕ)
    → weighted_tholder w ≡ ok t
    → 0 < length indices
    → ((i : ℕ) → i < t.size → has i indices ≡ true)
    → satisfy t indices ≡ ok true
satisfy_full w t indices h some_index all =
    satisfy_weighted w t indices h ∙ ap ok (and_true _ _ (ground (arith, some_index)) (reach all))
  where
    reach :
        ((i : ℕ) → i < t.size → has i indices ≡ true)
        → is_satisfied (slots_of t.size indices) 0 (clauses_of t.thold) ≡ true
    reach =
        from_clauses
          (λ t.
            ((i : ℕ) → i < t.size → has i indices ≡ true)
            → is_satisfied (slots_of t.size indices) 0 (clauses_of t.thold) ≡ true)
          w t h
          λ cs e every.
            is_satisfied_mono every_slot (slots_of (slots cs) indices) 0 cs
              (λ o low high on. ground (arith, every o (omega arith)))
              (every_satisfied 0 cs (normalize-IsNormal w cs e))
