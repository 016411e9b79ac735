-- ===== src/Witness.antt =====
-- packages/keri/src/core/witnesses.ts: the ordered witness list after a rotation's cuts and adds.
-- A witness is its qb64 text. The proofs are in the child module.
pub mod Rotated
mod Tests
use keri_ts.Prelude.{String, Bool, not, List, ◌++◌, if◌then◌else◌, every, keep}
use keri_ts.Prelude.Sets.{string_eq, has, of_list, has_unique_entries}

pub record DerivedWitnessSet : Type 0 where
  pub wits : List String
  pub cuts : List String
  pub adds : List String

pub data WitnessSetValidationReason : Type 0 where
  duplicate_cuts cuts_not_subset_of_witnesses duplicate_adds : WitnessSetValidationReason
  intersecting_cuts_and_adds intersecting_witnesses_and_adds : WitnessSetValidationReason
  invalid_witness_set : WitnessSetValidationReason

pub data DerivedWitnessSetDecision : Type 0 where
  accept : DerivedWitnessSet → DerivedWitnessSetDecision
  reject : WitnessSetValidationReason → DerivedWitnessSetDecision

-- `currentWits.filter((wit) => !cutset.has(wit))`, then `next.push(...adds)`
abbrev pub next_witnesses : List String → List String → List String → List String
next_witnesses current_wits cuts adds =
    keep (λ wit. not (has wit (of_list cuts))) current_wits ++ adds

-- `hasUniqueWitnesses`
unfoldable pub has_unique_witnesses : List String → Bool
has_unique_witnesses wits = has_unique_entries wits

-- Each loop of the source over a set returns at the first item that fails, so it is `every`.
unfoldable pub derive_rotated_witness_set :
    List String → List String → List String → DerivedWitnessSetDecision
derive_rotated_witness_set current_wits cuts adds =
    if not (has_unique_entries cuts)
    then reject duplicate_cuts
    else if not (has_unique_entries adds)
    then reject duplicate_adds
    else if not (every (λ cut. has cut (of_list current_wits)) cuts)
    then reject cuts_not_subset_of_witnesses
    else if not (every (λ cut. not (has cut (of_list adds))) cuts)
    then reject intersecting_cuts_and_adds
    else if not (every (λ add. not (has add (of_list current_wits))) adds)
    then reject intersecting_witnesses_and_adds
    else if not (has_unique_entries (next_witnesses current_wits cuts adds))
    then reject invalid_witness_set
    else accept (record { wits = next_witnesses current_wits cuts adds; cuts = cuts; adds = adds })
