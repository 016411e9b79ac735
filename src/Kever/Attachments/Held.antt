-- ===== src/Kever/Attachments/Held.antt =====
-- What the validation of the attachments escrows: the event itself, under the reason of the escrow.
use keri_ts.Prelude.{
  ℕ, zero, suc, ◌≡◌, refl, ap, not, ◌==◌, Option, none, some, List, [], ◌∷◌, String, length,
  or_else, non_empty, every,
}
use keri_ts.Prelude.Result.{ok, guard}
use keri_ts.Event.{Serder, Siger}
use keri_ts.Event.Decision.{
  AgentCue, EscrowKind, EscrowInstruction, delegables, partial_dels, partial_sigs, partial_wigs,
  misfit, query_delegator, AttachmentDecision, attachment_verified, attachment_escrow,
  attachment_reject,
}
use keri_ts.Kever.{Primitives, Kever, Baser, invalid_verfer, has_valid_threshold_material}
use keri_ts.Kever.Store.{get_kever}
use keri_ts.Kever.Store.Yields.{
  Yields, ok-Yields, if-Yields, option-Yields, then-Yields, bind-Yields,
}
use keri_ts.Kever.Inputs.{make_attachment_escrow_decision, AttachmentValidationInput}
use keri_ts.Kever.Seals.{DelegatingEventLookup, latest_accepted_delegated_event_at_sn}
use keri_ts.Kever.Seals.Fetch.{fetch_current, fetch_original}
use keri_ts.Kever.Signatures.{SignerVerificationResult, verify_indexed_signatures}
use keri_ts.Kever.Recovery.{
  CycleKey, Verdict, supersedes, refused, climb, recovery_verdict, cycle_key, NextTurn,
  climb_original, climb_candidate, after_verdict, validate_delegated_recovery, recovery_fuel,
}
use keri_ts.Kever.Delegation.{
  recovered, validate_recovery, after_fetch, validate_anchor, delegate_unless, validate_delegation,
  awaits_local_approval, is_protected, is_simple,
}
use keri_ts.Kever.Attachments.{
  is_misfit, satisfies, satisfies_prior_next, WitnessGate, enough_receipts, few_receipts,
  bad_witness_threshold, witness_gate, after_receipts, validate_receipts, validate_signed,
  strip_membered, validate_attachments, finish,
}

-- The instruction is to hold the event for the reason, under its prefix, number and digest.
pub record IsHeld (serder : Serder) (reason : EscrowKind) (instruction : EscrowInstruction)
    : Type 0 where
  pub same_reason : instruction.escrow ≡ reason
  pub event : instruction.log.serder ≡ serder
  pub pre : (p : String) → serder.pre ≡ some p → instruction.pre ≡ p
  pub said : instruction.said ≡ or_else serder.said ""
  pub sn : instruction.sn ≡ serder.sn

abbrev pub Holds : Serder → AttachmentDecision → Type 0
Holds serder (attachment_verified v) = Unit {0}
Holds serder (attachment_escrow reason instruction cues) = IsHeld serder reason instruction
Holds serder (attachment_reject code) = Unit {0}

abbrev HoldsSome : Serder → Option AttachmentDecision → Type 0
HoldsSome serder none = Unit {0}
HoldsSome serder (some d) = Holds serder d

module _ (prim : Primitives) (k : Kever) (input : AttachmentValidationInput) where
  Held : AttachmentDecision → Type 0
  Held = Holds input.serder

  HeldSome : Option AttachmentDecision → Type 0
  HeldSome = HoldsSome input.serder

  made-Held :
      (kind : EscrowKind) (cues : List AgentCue)
      → Held (make_attachment_escrow_decision k kind input cues)
  unfolding Held make_attachment_escrow_decision
  made-Held kind cues = record {
    same_reason = refl;
    event = refl;
    pre = λ p named. ap (λ o. or_else o k.pre) named;
    said = refl;
    sn = refl;
  }

  module _ (turn : NextTurn)
      (holds : (db : Baser) (next : String) (c o : DelegatingEventLookup)
        → Yields HeldSome (turn db next c o)) where
    missing-Held :
        (next : String) (db : Baser)
        → Yields HeldSome (
            ok (
              some (
                  make_attachment_escrow_decision k partial_dels input
                    (query_delegator next none ∷ [])),
              db,
            ))
    unfolding HeldSome Held
    missing-Held next db = ok-Yields HeldSome _ db (made-Held partial_dels _)

    original-Held :
        (next : String) (c : DelegatingEventLookup) (r : Option DelegatingEventLookup × Baser)
        → Yields HeldSome (climb_original turn k input next c r)
    unfolding climb_original
    original-Held next c (none, db) = missing-Held next db
    original-Held next c (some o, db) = holds db next c o

    candidate-Held :
        (next : String) (o : DelegatingEventLookup) (r : Option DelegatingEventLookup × Baser)
        → Yields HeldSome (climb_candidate turn k input next o r)
    unfolding climb_candidate
    candidate-Held next o (none, db) = missing-Held next db
    candidate-Held next o (some c, db) =
        original-Held next c (fetch_original db next o.serder input.eager)

    verdict-Held :
        (db : Baser) (c o : DelegatingEventLookup) (v : Verdict)
        → Yields HeldSome (after_verdict turn k input db c o v)
    unfolding after_verdict HeldSome
    verdict-Held db c o supersedes = ok-Yields HeldSome _ db tt
    verdict-Held db c o refused = ok-Yields HeldSome _ db tt
    verdict-Held db c o (climb next) =
        candidate-Held next o (fetch_current db next c.serder none input.eager)

  recovery-Held :
      (fuel : ℕ) (db : Baser) (visited : List CycleKey) (delpre : String)
      (c o : DelegatingEventLookup)
      → Yields HeldSome (validate_delegated_recovery fuel k input db visited delpre c o)
  unfolding validate_delegated_recovery
  recovery-Held zero db visited delpre c o = λ r h. absurd (cc h)
  recovery-Held (suc fuel) db visited delpre c o =
      verdict-Held
        (λ db' next c' o'.
          validate_delegated_recovery fuel k input db' (cycle_key delpre c o ∷ visited) next c' o')
        (λ db' next c' o'. recovery-Held fuel db' (cycle_key delpre c o ∷ visited) next c' o') db c
        o (recovery_verdict db visited delpre c o)

  recovered-Held :
      (delpre : String) (found : DelegatingEventLookup) (d : Option AttachmentDecision)
      → HeldSome d
      → Held (recovered input delpre found d)
  unfolding Held HeldSome
  recovered-Held delpre found none h = tt
  recovered-Held delpre found (some d) h = h

  validate_recovery-Held :
      (delpre : String) (db : Baser) (found : DelegatingEventLookup)
      → Yields Held (validate_recovery k input db delpre found)
  unfolding validate_recovery Held
  validate_recovery-Held delpre db found =
      option-Yields Held input.serder.sn _ _ (ok-Yields Held _ db tt) λ sn _.
        option-Yields Held (latest_accepted_delegated_event_at_sn db k sn) _ _
          (ok-Yields Held _ db tt)
          λ original _.
            let r : Option DelegatingEventLookup × Baser =
              fetch_original db delpre original input.eager in
            option-Yields Held r.0 _ _ (ok-Yields Held _ r.1 (made-Held partial_dels _))
              λ original' _.
                bind-Yields Held
                  (validate_delegated_recovery (recovery_fuel r.1) k input r.1 [] delpre found
                    original')
                  _
                  λ d e. ok-Yields Held (recovered input delpre found d.0) d.1 (
                    recovered-Held delpre found d.0
                      (recovery-Held (recovery_fuel r.1) r.1 [] delpre found original' d e))

  after_fetch-Held :
      (delpre : String) (r : Option DelegatingEventLookup × Baser)
      → Yields Held (after_fetch k input delpre r)
  unfolding after_fetch Held
  after_fetch-Held delpre (none, db) = ok-Yields Held _ db (made-Held partial_dels _)
  after_fetch-Held delpre (some found, db) =
      if-Yields Held (is_simple k input.serder) _ _ (λ _. ok-Yields Held _ db tt)
        λ _. validate_recovery-Held delpre db found

  validate_anchor-Held :
      (delpre : String) (db : Baser) (delegator : Option Kever)
      → Yields Held (validate_anchor k input db delpre delegator)
  unfolding validate_anchor Held
  validate_anchor-Held delpre db none = ok-Yields Held _ db (made-Held partial_dels _)
  validate_anchor-Held delpre db (some delegator) =
      if-Yields Held delegator.do_not_delegate _ _ (λ _. ok-Yields Held _ db tt)
        λ _.
          after_fetch-Held delpre
            (fetch_current db delpre input.serder input.source_seal input.eager)

  delegate_unless-Held :
      (db : Baser) (delpre : Option String) → Yields Held (delegate_unless prim k input db delpre)
  unfolding delegate_unless Held
  delegate_unless-Held db none = ok-Yields Held _ db tt
  delegate_unless-Held db (some delpre) =
      if-Yields Held (awaits_local_approval k input db delpre) _ _
        (λ _. ok-Yields Held _ db (made-Held delegables []))
        λ _.
          if-Yields Held (is_protected k input.wits db) _ _ (λ _. ok-Yields Held _ db tt)
            λ _.
              then-Yields Held (get_kever prim db delpre) _ λ r. validate_anchor-Held delpre r.1 r.0

  finish-Held :
      (remote : List AgentCue) (sigers wigers : List Siger) (d : AttachmentDecision)
      → Held d
      → Held (finish input remote sigers wigers d)
  unfolding finish Held
  finish-Held remote sigers wigers (attachment_verified v) h = tt
  finish-Held remote sigers wigers (attachment_escrow reason instruction cues) h = h
  finish-Held remote sigers wigers (attachment_reject code) h = tt

  receipts-Held :
      (remote : List AgentCue) (sigers wigers : List Siger) (db : Baser) (gate : WitnessGate)
      → Yields Held (after_receipts prim k input remote sigers wigers db gate)
  unfolding after_receipts validate_delegation Held
  receipts-Held remote sigers wigers db bad_witness_threshold = ok-Yields Held _ db tt
  receipts-Held remote sigers wigers db few_receipts =
      ok-Yields Held _ db (made-Held partial_wigs _)
  receipts-Held remote sigers wigers db enough_receipts =
      bind-Yields Held (delegate_unless prim k input db (non_empty input.delpre)) _ λ r e.
        ok-Yields Held (finish input remote sigers wigers r.0) r.1 (
          finish-Held remote sigers wigers r.0
            (delegate_unless-Held db (non_empty input.delpre) r e))

  validate_receipts-Held :
      (remote : List AgentCue) (sigers : List Siger) (db : Baser)
      → Yields Held (validate_receipts prim k input remote sigers db)
  unfolding validate_receipts
  validate_receipts-Held remote sigers db =
      then-Yields Held {B = Unit {0}} (guard (every prim.is_verfer input.wits) invalid_verfer) _
        λ _.
          receipts-Held remote sigers
            ((verify_indexed_signatures prim input.serder.raw input.wigers input.wits).sigers) db
            (witness_gate k input db (
              length
                (verify_indexed_signatures prim input.serder.raw input.wigers input.wits).sigers))

  signed-Held :
      (remote : List AgentCue) (verified : SignerVerificationResult) (db : Baser)
      → Yields Held (validate_signed prim k input remote verified db)
  unfolding validate_signed Held
  signed-Held remote verified db =
      if-Yields Held (length verified.sigers == 0) _ _ (λ _. ok-Yields Held _ db tt)
        λ _.
          if-Yields Held (is_misfit k input db) _ _
            (λ _. ok-Yields Held _ db (made-Held misfit remote))
            λ _. then-Yields Held (satisfies input.tholder verified.indices) _ λ enough.
              if-Yields Held (not enough) _ _
                (λ _. ok-Yields Held _ db (made-Held partial_sigs remote))
                λ _.
                  then-Yields Held (satisfies_prior_next prim k input verified.sigers) _ λ exposed.
                    if-Yields Held (not exposed) _ _
                      (λ _. ok-Yields Held _ db (made-Held partial_sigs remote))
                      λ _. validate_receipts-Held remote verified.sigers db

  attachments-Held : (db : Baser) → Yields Held (validate_attachments prim k input db)
  unfolding validate_attachments Held
  attachments-Held db =
      if-Yields Held (not (has_valid_threshold_material input.tholder (length input.verfers))) _ _
        (λ _. ok-Yields Held _ db tt)
        λ _. then-Yields Held (strip_membered prim k input db) _ λ counted.
          signed-Held counted.0.1
            (verify_indexed_signatures prim input.serder.raw counted.0.0 input.verfers) counted.1

-- What `validateAttachments` escrows is the event itself.
pub attachments-Holds :
    (prim : Primitives) (k : Kever) (input : AttachmentValidationInput) (db : Baser)
    → Yields (Holds input.serder) (validate_attachments prim k input db)
unfolding Held
attachments-Holds prim k input db = attachments-Held prim k input db
