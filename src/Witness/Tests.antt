-- ===== src/Witness/Tests.antt =====
-- The witness-list theorems at concrete inputs.
use keri_ts.Prelude.{◌≡◌, refl, ◌↔◌, ◌≢◌, String, List, [], ◌∷◌}
use keri_ts.Prelude.Sets.{string_eq, has, IsUnique}
use keri_ts.Witness.{
  DerivedWitnessSet, accept, reject, invalid_witness_set, derive_rotated_witness_set,
}
use keri_ts.Witness.Rotated.{IsRotation, IsRotated, accept_iff, accept-IsRotated, never_invalid}

abbrev current : List String
current = "B1" ∷ "B2" ∷ "B3" ∷ []

abbrev cut : List String
cut = "B2" ∷ []

abbrev added : List String
added = "B4" ∷ []

abbrev rotated : DerivedWitnessSet
rotated = record { wits = "B1" ∷ "B3" ∷ "B4" ∷ []; cuts = cut; adds = added }

current-IsUnique : IsUnique current
unfolding has
current-IsUnique = (refl, (refl, (refl, tt)))

rotated_accepted : derive_rotated_witness_set current cut added ≡ accept rotated
unfolding derive_rotated_witness_set keri_ts.Prelude.Sets.has_unique_entries
rotated_accepted = refl

accept_iff_example :
    ((v : DerivedWitnessSet) × (derive_rotated_witness_set current cut added ≡ accept v))
    ↔ IsRotation current cut added
accept_iff_example = accept_iff current cut added current-IsUnique

accept-IsRotated_example : IsRotated current cut added rotated
accept-IsRotated_example =
    accept-IsRotated current cut added rotated current-IsUnique rotated_accepted

never_invalid_example : derive_rotated_witness_set current cut current ≢ reject invalid_witness_set
never_invalid_example = never_invalid current cut current current-IsUnique
