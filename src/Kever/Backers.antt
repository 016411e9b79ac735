-- ===== src/Kever/Backers.antt =====
-- packages/keri/src/core/kever.ts: `deriveBacksDecision`, the witness list and threshold after an
-- establishment event. The proofs are in the child module.
pub mod Rotated
use keri_ts.Prelude.{
  ℕ, Bool, not, ◌||◌, Option, none, some, List, [], String, ltb, ◌==◌, if◌then◌else◌, length,
  or_else, equals, false,
}
use keri_ts.Witness.{DerivedWitnessSetDecision, accept, reject, derive_rotated_witness_set}
use keri_ts.Event.{Serder}
use keri_ts.Kever.{Kever, Baser}
use keri_ts.Kever.Store.{locally_witnessed}

-- `DerivedBacksResult`
pub record DerivedBacksResult : Type 0 where
  pub wits : List String
  pub cuts : List String
  pub adds : List String
  pub toader : ℕ

-- A witness threshold fits a list of so many witnesses.
unfoldable pub toader_fits : ℕ → ℕ → Bool
toader_fits toader count =
    if ltb 0 count then not (ltb toader 1 || ltb count toader) else toader == 0

unfoldable pub is_inceptive : Serder → Bool
is_inceptive serder = equals serder.ilk "icp" || equals serder.ilk "dip"

-- The cuts and adds of a rotation, with its threshold.
unfoldable pub rotated_backs : ℕ → DerivedWitnessSetDecision → Option DerivedBacksResult
unfolding toader_fits
rotated_backs toader (reject _) = none
rotated_backs toader (accept next) =
    if toader_fits toader (length next.wits)
    then some (record { wits = next.wits; cuts = next.cuts; adds = next.adds; toader = toader })
    else none

unfoldable pub derive_backs_decision : List String → Serder → Option DerivedBacksResult
unfolding rotated_backs
derive_backs_decision wits serder =
    let toader : ℕ = or_else serder.bner 0 in
    if is_inceptive serder
    then some (record { wits = serder.backs; cuts = []; adds = []; toader = toader })
    else rotated_backs toader (derive_rotated_witness_set wits serder.cuts serder.adds)

-- `locallyWitnessed({ serder })`
unfoldable pub locally_witnessed_after : Baser → Kever → Serder → Bool
unfolding derive_backs_decision locally_witnessed
locally_witnessed_after db k serder =
    if not (equals serder.pre k.pre) then false else elim (derive_backs_decision k.wits serder) [
      | none ↦ false
      | some derived ↦ locally_witnessed db derived.wits
    ]
