-- ===== src/Kever/Backers/Rotated.antt =====
-- What `deriveBacksDecision` leaves of a witness list.
use mathlib.Core.Path.{subst}
use keri_ts.Prelude.{
  ℕ, ◌≤◌, ◌<◌, ◌≡◌, sym, ap, true, false, some, String, List, length, or_else, Bool-cases, inl, inr,
  arith,
}
use keri_ts.Prelude.Sets.{string_eq, IsUnique}
use keri_ts.Witness.{
  DerivedWitnessSet, accept, reject, derive_rotated_witness_set, DerivedWitnessSetDecision,
}
use keri_ts.Witness.Rotated.{IsRotated, accept-IsRotated}
use keri_ts.Event.{Serder}
use keri_ts.Kever.Backers.{
  DerivedBacksResult, toader_fits, is_inceptive, rotated_backs, derive_backs_decision,
}

-- Without witnesses the threshold is zero; with some it is from one to their number.
pub record IsFit (toader count : ℕ) : Type 0 where
  pub without : count ≡ 0 → toader ≡ 0
  pub at_least : 0 < count → 1 ≤ toader
  pub at_most : toader ≤ count

pub toader_fits-IsFit : (toader count : ℕ) → toader_fits toader count ≡ true → IsFit toader count
unfolding toader_fits
toader_fits-IsFit toader count h = record {
  without = λ e. ground (arith, h, e);
  at_least = λ p. ground (arith, h, p);
  at_most = ground (arith, h);
}

abbrev pub witness_set : DerivedBacksResult → DerivedWitnessSet
witness_set d = record { wits = d.wits; cuts = d.cuts; adds = d.adds }

rotated-parts :
    (toader : ℕ) (next : DerivedWitnessSetDecision) (d : DerivedBacksResult)
    → rotated_backs toader next ≡ some d
    → (next ≡ accept (witness_set d)) × (d.toader ≡ toader) × IsFit d.toader (length d.wits)
unfolding rotated_backs
rotated-parts toader (reject _) d h = absurd (cc h)
rotated-parts toader (accept next) d h = elim (Bool-cases (toader_fits toader (length next.wits))) [
  | inr off ↦ absurd (ground (arith, off, h))
  | inl fits ↦
      let same : some
            (record { wits = next.wits; cuts = next.cuts; adds = next.adds; toader = toader })
          ≡ some d =
        ground (arith, fits, h) in
      let equal : record { wits = next.wits; cuts = next.cuts; adds = next.adds; toader = toader }
          ≡ d =
        cc same in
      (
        ap (λ (x : DerivedBacksResult). accept (witness_set x)) equal,
        ap (λ (x : DerivedBacksResult). x.toader) (sym equal),
        subst (λ (x : DerivedBacksResult). IsFit x.toader (length x.wits)) equal
            (toader_fits-IsFit toader (length next.wits) fits),
      )
]

-- Of an event that is no inception, from a witness list with no duplicate, `deriveBacksDecision`
-- leaves the current list without the cuts, in its order, followed by the adds in theirs, again with
-- no duplicate, and the event's witness threshold: zero without witnesses, and otherwise from one to
-- their number.
pub derive_backs-IsRotated :
    (wits : List String) (serder : Serder) (d : DerivedBacksResult)
    → IsUnique wits
    → is_inceptive serder ≡ false
    → derive_backs_decision wits serder ≡ some d
    → IsRotated wits serder.cuts serder.adds (witness_set d)
      × IsFit d.toader (length d.wits)
      × (d.toader ≡ or_else serder.bner 0)
unfolding derive_backs_decision
derive_backs-IsRotated wits serder d u later h =
    let (set, toader, fits) =
      rotated-parts (or_else serder.bner 0)
        (derive_rotated_witness_set wits serder.cuts serder.adds) d (ground (arith, later, h)) in
    (accept-IsRotated wits serder.cuts serder.adds (witness_set d) u set, fits, toader)
