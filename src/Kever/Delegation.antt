-- ===== src/Kever/Delegation.antt =====
-- packages/keri/src/core/kever.ts: `validateDelegation`, the last gate of the attachment validation.
-- The proofs are in the child module.
pub mod Approved
pub mod Returned
use keri_ts.Prelude.{
  ℕ, suc, ◌+◌, ◌*◌, Bool, true, false, not, ◌&&◌, ◌||◌, Option, none, some, List, [], ◌∷◌, String,
  ◌==◌, if◌then◌else◌, length, is_some, equals, non_empty,
}
use keri_ts.Prelude.Result.{ok, ◌>>=◌}
use keri_ts.Event.{Serder, SourceSeal}
use keri_ts.Event.Decision.{
  AttachmentDecision, attachment_verified, attachment_reject, delegables, partial_dels,
  delegation_policy_violation, invalid_delegation, query_delegator,
}
use keri_ts.Kever.{Primitives, Kever, Baser}
use keri_ts.Kever.Store.{
  Step, get_kever, locally_owned, locally_delegated, locally_membered, locally_witnessed,
}
use keri_ts.Kever.Inputs.{AttachmentValidationInput, make_attachment_escrow_decision}
use keri_ts.Kever.Seals.{
  DelegatingEventLookup, lookup_accepted_delegating_event, latest_accepted_delegated_event_at_sn,
}
use keri_ts.Kever.Seals.Fetch.{fetch_current, fetch_original}
use keri_ts.Kever.Recovery.{validate_delegated_recovery, recovery_fuel}

abbrev pub delegation_verified :
    AttachmentValidationInput → Option String → Option SourceSeal → AttachmentDecision
delegation_verified input delpre source_seal = attachment_verified (record {
  sigers = [];
  wigers = [];
  wits = input.wits;
  delpre = delpre;
  source_seal = source_seal;
  cues = [];
})

unfoldable pub is_delegated_establishment : Serder → Bool
is_delegated_establishment serder = equals serder.ilk "dip" || equals serder.ilk "drt"

-- `sourceSealApprovesEvent`
unfoldable pub source_seal_approves : Baser → String → Option SourceSeal → Serder → Bool
source_seal_approves db delpre none serder = false
source_seal_approves db delpre (some seal) serder =
    is_some (lookup_accepted_delegating_event db delpre seal serder)

unfoldable pub awaits_local_approval : Kever → AttachmentValidationInput → Baser → String → Bool
unfolding is_delegated_establishment source_seal_approves
awaits_local_approval k input db delpre =
    is_delegated_establishment input.serder
    && locally_delegated db (some delpre)
    && not (locally_owned db k.pre)
    && not (source_seal_approves db delpre input.source_seal input.serder)

-- A local controller, a local member or a local witness.
unfoldable pub is_protected : Kever → List String → Baser → Bool
is_protected k wits db =
    locally_owned db k.pre || locally_membered db k.pre || locally_witnessed db wits

-- Not a recovery: an inception, the next rotation, or one over the interaction at the head.
unfoldable pub is_simple : Kever → Serder → Bool
is_simple k serder = not (equals serder.ilk "drt") || elim serder.sn [
  | none ↦ true
  | some sn ↦ sn == k.sn + 1 || (sn == k.sn && equals (some k.ilk) "ixn")
]

abbrev pub withheld :
    Kever → AttachmentValidationInput → String → Option SourceSeal → Baser → Step AttachmentDecision
withheld k input delpre hint db =
    ok (make_attachment_escrow_decision k partial_dels input (query_delegator delpre hint ∷ []), db)

abbrev pub recovered :
    AttachmentValidationInput
    → String
    → DelegatingEventLookup
    → Option AttachmentDecision
    → AttachmentDecision
recovered input delpre found (some decision) = decision
recovered input delpre found none = delegation_verified input (some delpre) (some found.source_seal)

-- A recovery, whose delegating event is found: the comparison with the accepted one.
unfoldable pub validate_recovery :
    Kever
    → AttachmentValidationInput
    → Baser
    → String
    → DelegatingEventLookup
    → Step AttachmentDecision
unfolding validate_delegated_recovery
validate_recovery k input db delpre found = elim input.serder.sn [
  | none ↦ ok (delegation_verified input (some delpre) (some found.source_seal), db)
  | some sn ↦ elim (latest_accepted_delegated_event_at_sn db k sn) [
    | none ↦ ok (attachment_reject invalid_delegation, db)
    | some original ↦
        let (found', db') = fetch_original db delpre original input.eager in
        elim found' [
          | none ↦ withheld k input delpre none db'
          | some original' ↦
              validate_delegated_recovery (recovery_fuel db') k input db' [] delpre found original'
              >>= λ r. ok (recovered input delpre found r.0, r.1)
        ]
  ]
]

-- What follows from the search for the delegating event.
unfoldable pub after_fetch :
    Kever
    → AttachmentValidationInput
    → String
    → Option DelegatingEventLookup × Baser
    → Step AttachmentDecision
unfolding validate_recovery is_simple
after_fetch k input delpre (none, db) = withheld k input delpre input.source_seal db
after_fetch k input delpre (some found, db) =
    if is_simple k input.serder
    then ok (delegation_verified input (some delpre) (some found.source_seal), db)
    else validate_recovery k input db delpre found

-- A validator that is no party: the delegator must be known, and must have sealed the event.
unfoldable pub validate_anchor :
    Kever → AttachmentValidationInput → Baser → String → Option Kever → Step AttachmentDecision
unfolding after_fetch
validate_anchor k input db delpre none = withheld k input delpre none db
validate_anchor k input db delpre (some delegator) =
    if delegator.do_not_delegate
    then ok (attachment_reject delegation_policy_violation, db)
    else after_fetch k input delpre
        (fetch_current db delpre input.serder input.source_seal input.eager)

unfoldable pub delegate_unless :
    Primitives → Kever → AttachmentValidationInput → Baser → Option String → Step AttachmentDecision
unfolding validate_anchor awaits_local_approval is_protected
delegate_unless prim k input db none = ok (delegation_verified input none none, db)
delegate_unless prim k input db (some delpre) =
    if awaits_local_approval k input db delpre
    then ok (make_attachment_escrow_decision k delegables input [], db)
    else if is_protected k input.wits db
    then ok (delegation_verified input (some delpre) input.source_seal, db)
    else (get_kever prim db delpre >>= λ delegator.
        validate_anchor k input delegator.1 delpre delegator.0)

unfoldable pub validate_delegation :
    Primitives → Kever → AttachmentValidationInput → Baser → Step AttachmentDecision
unfolding delegate_unless
validate_delegation prim k input db = delegate_unless prim k input db (non_empty input.delpre)
