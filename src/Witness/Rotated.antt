-- ===== src/Witness/Rotated.antt =====
-- When `deriveRotatedWitnessSet` accepts, and what the witness list is then.
use mathlib.Core.Path.{fun_ext}
use keri_ts.Prelude.{
  ◌+◌, ◌≡◌, refl, ap, ◌↔◌, ◌∙◌, String, Bool, true, not, ◌&&◌, ◌||◌, List, ◌++◌, arith, length,
  length-append, keep, every, ◌≢◌,
}
use keri_ts.Prelude.Sets.{
  string_eq, has, of_list, has_unique_entries, IsUnique, has-of_list, has-append, has-keep,
  has_unique_entries_iff,
}
use keri_ts.Prelude.Unique.{
  AreDisjoint, AreDisjoint-symm, append-IsUnique, keep-IsUnique, every-has, has-every,
  length-keep_difference,
}
use keri_ts.Witness.{
  DerivedWitnessSet, accept, reject, invalid_witness_set, next_witnesses,
  derive_rotated_witness_set,
}

-- What a rotation's cuts and adds must satisfy against the current witness list.
pub record IsRotation (current cuts adds : List String) : Type 0 where
  pub cuts_unique : IsUnique cuts
  pub adds_unique : IsUnique adds
  pub cuts_present : (w : String) → has w cuts ≡ true → has w current ≡ true
  pub cuts_not_added : AreDisjoint cuts adds
  pub adds_new : AreDisjoint adds current

module _ (current cuts adds : List String) where
  next-eq : next_witnesses current cuts adds ≡ keep (λ w. not (has w cuts)) current ++ adds
  next-eq =
      ap (λ (f : String → Bool). keep (λ w. not (f w)) current ++ adds)
        (fun_ext λ w. has-of_list w cuts)

  has-next :
      (w : String)
      → has w (next_witnesses current cuts adds) ≡ (has w current && not (has w cuts) || has w adds)
  has-next w = ground (
    arith,
    ap (has w) next-eq,
    has-append w (keep (λ w. not (has w cuts)) current) adds,
    has-keep (λ w. not (has w cuts)) w current,
  )

  next-IsUnique :
      IsUnique current → IsRotation current cuts adds → IsUnique (next_witnesses current cuts adds)
  next-IsUnique u r = rw next-eq (
      append-IsUnique (keep (λ w. not (has w cuts)) current) adds
        (keep-IsUnique (λ w. not (has w cuts)) current u) r.adds_unique
        (λ w m.
          AreDisjoint-symm adds current r.adds_new w
            (ground (arith, m, has-keep (λ w. not (has w cuts)) w current))))

  length-next :
      IsUnique current
      → IsRotation current cuts adds
      → length (next_witnesses current cuts adds) + length cuts ≡ length current + length adds
  length-next u r = rw next-eq (
      omega (
        arith,
        length-append (keep (λ w. not (has w cuts)) current) adds,
        length-keep_difference cuts current r.cuts_unique u r.cuts_present,
      ))

  -- The rotation's conditions, from the tests of the code.
  passes :
      has_unique_entries cuts ≡ true
      → has_unique_entries adds ≡ true
      → every (λ cut. has cut (of_list current)) cuts ≡ true
      → every (λ cut. not (has cut (of_list adds))) cuts ≡ true
      → every (λ add. not (has add (of_list current))) adds ≡ true
      → IsRotation current cuts adds
  passes uc ua sub apart new = record {
    cuts_unique = (has_unique_entries_iff cuts).0 uc;
    adds_unique = (has_unique_entries_iff adds).0 ua;
    cuts_present = λ w m.
        ground
          (arith, every-has (λ c. has c (of_list current)) w cuts sub m, has-of_list w current);
    cuts_not_added = λ w m.
        ground
          (arith, every-has (λ c. not (has c (of_list adds))) w cuts apart m, has-of_list w adds);
    adds_new = λ w m.
        ground (
          arith,
          every-has (λ a. not (has a (of_list current))) w adds new m,
          has-of_list w current,
        );
  }

  accept-IsRotation :
      {v : DerivedWitnessSet}
      → derive_rotated_witness_set current cuts adds ≡ accept v
      → IsRotation current cuts adds
  unfolding derive_rotated_witness_set
  accept-IsRotation h =
      passes (ground (arith, h)) (ground (arith, h)) (ground (arith, h)) (ground (arith, h))
        (ground (arith, h))

  accept-eq :
      {v : DerivedWitnessSet}
      → derive_rotated_witness_set current cuts adds ≡ accept v
      → v ≡ record { wits = next_witnesses current cuts adds; cuts = cuts; adds = adds }
  unfolding derive_rotated_witness_set
  accept-eq h = ground (arith, h)

  IsRotation-accept :
      IsUnique current
      → IsRotation current cuts adds
      → derive_rotated_witness_set current cuts adds
        ≡ accept (record { wits = next_witnesses current cuts adds; cuts = cuts; adds = adds })
  unfolding derive_rotated_witness_set
  IsRotation-accept u r = ground (
    arith,
    (has_unique_entries_iff cuts).1 r.cuts_unique,
    (has_unique_entries_iff adds).1 r.adds_unique,
    has-every (λ c. has c (of_list current)) cuts
        (λ w m. has-of_list w current ∙ r.cuts_present w m),
    has-every (λ c. not (has c (of_list adds))) cuts
        (λ w m. ap not (has-of_list w adds ∙ r.cuts_not_added w m)),
    has-every (λ a. not (has a (of_list current))) adds
        (λ w m. ap not (has-of_list w current ∙ r.adds_new w m)),
    (has_unique_entries_iff (next_witnesses current cuts adds)).1 (next-IsUnique u r),
  )

-- What an accepted rotation leaves: the current list without the cuts, then the adds.
pub record IsRotated (current cuts adds : List String) (v : DerivedWitnessSet) : Type 0 where
  pub same_cuts : v.cuts ≡ cuts
  pub same_adds : v.adds ≡ adds
  pub order : v.wits ≡ keep (λ w. not (has w cuts)) current ++ adds
  pub members : (w : String) → has w v.wits ≡ (has w current && not (has w cuts) || has w adds)
  pub unique : IsUnique v.wits
  pub balance : length v.wits + length cuts ≡ length current + length adds

-- From a current witness list with no duplicate, `deriveRotatedWitnessSet` accepts exactly the cuts
-- and adds that are each without duplicates, where every cut is a current witness, no cut is an
-- add, and no add is a current witness.
pub accept_iff :
    (current cuts adds : List String)
    → IsUnique current
    → ((v : DerivedWitnessSet) × (derive_rotated_witness_set current cuts adds ≡ accept v))
      ↔ IsRotation current cuts adds
accept_iff current cuts adds u = (
  λ (v, h). accept-IsRotation current cuts adds h,
  λ r. (
    record { wits = next_witnesses current cuts adds; cuts = cuts; adds = adds },
    IsRotation-accept current cuts adds u r,
  ),
)

-- From a current witness list with no duplicate, an accepted rotation keeps the cuts and adds as
-- given; its witnesses are the current ones that are not cut, in their order, and then the adds in
-- theirs; none stands twice; and their number is the current number less the cuts plus the adds.
pub accept-IsRotated :
    (current cuts adds : List String) (v : DerivedWitnessSet)
    → IsUnique current
    → derive_rotated_witness_set current cuts adds ≡ accept v
    → IsRotated current cuts adds v
accept-IsRotated current cuts adds v u h =
    let r : IsRotation current cuts adds = accept-IsRotation current cuts adds h in
    rw (accept-eq current cuts adds h) (record {
      same_cuts = refl;
      same_adds = refl;
      order = next-eq current cuts adds;
      members = has-next current cuts adds;
      unique = next-IsUnique current cuts adds u r;
      balance = length-next current cuts adds u r;
    })

-- From a current witness list with no duplicate, the last check of `deriveRotatedWitnessSet` never
-- fails: a rotation is never refused as an invalid witness set.
pub never_invalid :
    (current cuts adds : List String)
    → IsUnique current
    → derive_rotated_witness_set current cuts adds ≢ reject invalid_witness_set
unfolding derive_rotated_witness_set
never_invalid current cuts adds u h =
    let r : IsRotation current cuts adds =
      passes current cuts adds (ground (arith, h)) (ground (arith, h)) (ground (arith, h))
        (ground (arith, h)) (ground (arith, h)) in
    ground (
      arith,
      h,
      (has_unique_entries_iff (next_witnesses current cuts adds)).1
          (next-IsUnique current cuts adds u r),
    )
