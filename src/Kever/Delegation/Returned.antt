-- ===== src/Kever/Delegation/Returned.antt =====
-- On events whose seals can be read, the delegation gate comes to a decision, unless the delegator's
-- stored state does not load.
use mathlib.Core.Path.{subst}
use keri_ts.Prelude.{
  ◌≡◌, refl, ◌∙◌, ap, ◌≢◌, ◌⊎◌, inl, inr, Option, none, some, [], String, non_empty, Bool-cases,
  Option-cases, arith,
}
use keri_ts.Prelude.Sets.{string_eq}
use keri_ts.Prelude.Maps.{lookup, dg_key_eq}
use keri_ts.Prelude.Result.{ok, err, ◌>>=◌, Result-cases}
use keri_ts.Event.{Serder}
use keri_ts.Event.Decision.{attachment_reject, invalid_delegation}
use keri_ts.Kever.{Primitives, Thrown, out_of_fuel, Kever, Baser}
use keri_ts.Kever.Store.{Step, get_kever}
use keri_ts.Kever.Load.Throws.{get_kever-throws}
use keri_ts.Kever.Inputs.{AttachmentValidationInput}
use keri_ts.Kever.Seals.{DelegatingEventLookup, latest_accepted_delegated_event_at_sn}
use keri_ts.Kever.Seals.Fetch.{fetch_current, fetch_original}
use keri_ts.Kever.Seals.Repaired.{
  IsRepaired, IsStored, fetch_current-IsStored, fetch_current-IsRepaired, fetch_original-IsRepaired,
  fetch_original-IsStored,
}
use keri_ts.Kever.Recovery.{validate_delegated_recovery, recovery_fuel}
use keri_ts.Kever.Recovery.Bounded.{Returns, validate_delegated_recovery-Returns}
use keri_ts.Kever.Delegation.{
  delegation_verified, recovered, withheld, validate_recovery, after_fetch, is_simple,
  validate_anchor, awaits_local_approval, is_protected, delegate_unless, validate_delegation,
}

then-Returns :
    {A B : Type 0} (m : Step A) (f : A × Baser → B × Baser)
    → Returns m
    → Returns (m >>= λ r. ok (f r))
then-Returns m f (r, e) = (f r, ap (λ x. x >>= λ s. ok (f s)) e)

repaired-IsStored :
    (db db' : Baser) (l : DelegatingEventLookup)
    → IsRepaired db db'
    → IsStored db l
    → IsStored db' l
repaired-IsStored db db' l r (key, there) =
    (key, ap (λ (x : Baser). lookup key x.evts) r.same ∙ there)

module _ (k : Kever) (input : AttachmentValidationInput) (delpre : String) where
  compared-Returns :
      (db : Baser) (found : DelegatingEventLookup) (original : Serder)
      (fetched : Option DelegatingEventLookup × Baser)
      → IsStored db found
      → fetch_original db delpre original input.eager ≡ fetched
      → Returns (elim fetched.0 [
        | none ↦ withheld k input delpre none fetched.1
        | some original' ↦
            validate_delegated_recovery
              (recovery_fuel fetched.1)
              k
              input
              fetched.1
              []
              delpre
              found
              original'
            >>= λ r. ok (recovered input delpre found r.0, r.1)
      ])
  compared-Returns db found original (none, db') stored e = (_, refl)
  compared-Returns db found original (some original', db') stored e =
      let repaired : IsRepaired db db' =
        subst (IsRepaired db) (ap (λ (x : Option DelegatingEventLookup × Baser). x.1) e)
          (fetch_original-IsRepaired db delpre original input.eager) in
      then-Returns
        (validate_delegated_recovery (recovery_fuel db') k input db' [] delpre found original')
        (λ r. (recovered input delpre found r.0, r.1))
        (validate_delegated_recovery-Returns k input db' delpre found original'
          (repaired-IsStored db db' found repaired stored)
          (repaired-IsStored db db' original' repaired (
            fetch_original-IsStored db delpre original input.eager original'
              (ap (λ (x : Option DelegatingEventLookup × Baser). x.0) e))))

  recovery-Returns :
      (db : Baser) (found : DelegatingEventLookup)
      → IsStored db found
      → Returns (validate_recovery k input db delpre found)
  unfolding validate_recovery
  recovery-Returns db found stored = elim (Option-cases input.serder.sn) [
    | inl no_sn ↦ (
      (delegation_verified input (some delpre) (some found.source_seal), db),
      ground (arith, no_sn),
    )
    | inr (sn, has_sn) ↦ elim (Option-cases (latest_accepted_delegated_event_at_sn db k sn)) [
      | inl missing ↦ ((attachment_reject invalid_delegation, db), ground (arith, has_sn, missing))
      | inr (original, there) ↦
          let (r, e) =
            compared-Returns db found original (fetch_original db delpre original input.eager)
              stored refl in
          (r, ground (arith, has_sn, there, e))
    ]
  ]

  fetched-Returns :
      (db : Baser) (fetched : Option DelegatingEventLookup × Baser)
      → fetch_current db delpre input.serder input.source_seal input.eager ≡ fetched
      → Returns (after_fetch k input delpre fetched)
  unfolding after_fetch
  fetched-Returns db (none, db') e = (_, refl)
  fetched-Returns db (some found, db') e = elim (Bool-cases (is_simple k input.serder)) [
    | inl simple ↦ rw simple (_, refl)
    | inr recovery ↦
        let repaired : IsRepaired db db' =
          subst (IsRepaired db) (ap (λ (x : Option DelegatingEventLookup × Baser). x.1) e)
            (fetch_current-IsRepaired db delpre input.serder input.source_seal input.eager) in
        let (r, returned) = recovery-Returns db' found (
          repaired-IsStored db db' found repaired (
            fetch_current-IsStored db delpre input.serder input.source_seal input.eager found
              (ap (λ (x : Option DelegatingEventLookup × Baser). x.0) e))) in
        (r, ground (arith, recovery, returned))
  ]

  anchor-Returns :
      (db : Baser) (delegator : Option Kever)
      → Returns (validate_anchor k input db delpre delegator)
  unfolding validate_anchor
  anchor-Returns db none = (_, refl)
  anchor-Returns db (some delegator) = elim (Bool-cases delegator.do_not_delegate) [
    | inl forbids ↦ rw forbids (_, refl)
    | inr allows ↦
        let (r, e) =
          fetched-Returns db (fetch_current db delpre input.serder input.source_seal input.eager)
            refl in
        (r, ground (arith, allows, e))
  ]

-- What the gate throws is what the lookup of the delegator throws.
abbrev Outcome : Primitives → Kever → AttachmentValidationInput → Baser → Option String → Type 0
Outcome prim k input db delpre =
    Returns (delegate_unless prim k input db delpre)
    ⊎ ((pre : String) × (thrown : Thrown) × (delpre ≡ some pre)
        × (get_kever prim db pre ≡ err thrown)
        × (delegate_unless prim k input db delpre ≡ err thrown))

gate-Outcome :
    (prim : Primitives) (k : Kever) (input : AttachmentValidationInput) (db : Baser)
    (delpre : Option String)
    → Outcome prim k input db delpre
unfolding delegate_unless
gate-Outcome prim k input db none = inl (_, refl)
gate-Outcome prim k input db (some pre) = elim (Bool-cases (awaits_local_approval k input db pre)) [
  | inl awaits ↦ inl (rw awaits (_, refl))
  | inr approved ↦ elim (Bool-cases (is_protected k input.wits db)) [
    | inl protected ↦ inl (rw approved (rw protected (_, refl)))
    | inr remote ↦ elim (Result-cases (get_kever prim db pre)) [
      | inl ((delegator, db'), known) ↦
          let (r, e) = anchor-Returns k input pre db' delegator in
          inl (r, ground (arith, approved, remote, known, e))
      | inr (thrown, e) ↦ inr (pre, thrown, refl, e, ground (arith, approved, remote, e))
    ]
  ]
]

-- A decision, or what the load of the delegator's stored state throws.
abbrev pub Concludes : Primitives → Kever → AttachmentValidationInput → Baser → Type 0
Concludes prim k input db =
    Returns (validate_delegation prim k input db)
    ⊎ ((pre : String) × (thrown : Thrown) × (non_empty input.delpre ≡ some pre)
        × (get_kever prim db pre ≡ err thrown)
        × (thrown ≢ out_of_fuel)
        × (validate_delegation prim k input db ≡ err thrown))

-- On events whose `eventSeals` can be read, as every `Serder` here is, `validateDelegation` comes to a
-- decision, or throws what the load of the delegator's stored state throws: the loop of a delegated
-- recovery, on fuel by the size of the tables, never runs out.
pub validate_delegation-returns :
    (prim : Primitives) (k : Kever) (input : AttachmentValidationInput) (db : Baser)
    → Concludes prim k input db
unfolding validate_delegation
validate_delegation-returns prim k input db =
    elim (gate-Outcome prim k input db (non_empty input.delpre)) [
      | inl returned ↦ inl returned
      | inr (pre, thrown, named, loaded, e) ↦ inr (
        pre,
        thrown,
        named,
        loaded,
        λ fuel. get_kever-throws prim db pre (loaded ∙ ap err fuel),
        e,
      )
    ]
