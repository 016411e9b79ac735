-- ===== src/Kever/Attachments/Accepted.antt =====
-- What it takes for attachments to be verified: every gate of `validateAttachmentsInternal` was
-- passed.
use keri_ts.Prelude.{◌≡◌, refl, ◌∙◌, ap, true, false, not, List, ◌==◌, length, every, past, arith}
use keri_ts.Prelude.Result.{ok, guard, >>=-cases}
use keri_ts.Event.{Siger}
use keri_ts.Event.Decision.{
  AgentCue, VerifiedAttachments, AttachmentDecision, attachment_verified, attachment_escrow,
  attachment_reject,
}
use keri_ts.Kever.{Primitives, Kever, Baser, has_valid_threshold_material, invalid_verfer}
use keri_ts.Kever.Inputs.{AttachmentValidationInput, make_attachment_escrow_decision}
use keri_ts.Kever.Signatures.{SignerVerificationResult, verify_indexed_signatures}
use keri_ts.Kever.Delegation.{validate_delegation}
use keri_ts.Kever.Attachments.{
  strip_membered, is_misfit, satisfies, satisfies_prior_next, WitnessGate, enough_receipts,
  bad_witness_threshold, few_receipts, witness_gate, after_receipts, finish, validate_receipts,
  validate_signed, validate_attachments,
}

module _ (prim : Primitives) (k : Kever) (input : AttachmentValidationInput) where
  abbrev pub receipts : List Siger
  receipts = (verify_indexed_signatures prim input.serder.raw input.wigers input.wits).sigers

  -- The gates that verified signatures pass.
  pub record IsSigned (verified : SignerVerificationResult) (db : Baser) : Type 0 where
    pub some_signer : (length verified.sigers == 0) ≡ false
    pub no_misfit : is_misfit k input db ≡ false
    pub controllers : satisfies input.tholder verified.indices ≡ ok true
    pub prior_next : satisfies_prior_next prim k input verified.sigers ≡ ok true

  -- The gates of the receipts and of the delegation.
  pub record IsWitnessed (sigers : List Siger) (v : VerifiedAttachments) (db db' : Baser)
      : Type 0 where
    pub gate : witness_gate k input db (length receipts) ≡ enough_receipts
    pub delegation : VerifiedAttachments
    pub delegated : validate_delegation prim k input db ≡ ok (attachment_verified delegation, db')
    pub same_sigers : v.sigers ≡ sigers
    pub same_wigers : v.wigers ≡ receipts
    pub same_wits : v.wits ≡ input.wits

  -- All of them, on the signatures that count.
  pub record IsAuthorized (v : VerifiedAttachments) (db db' : Baser) : Type 0 where
    pub valid : has_valid_threshold_material input.tholder (length input.verfers) ≡ true
    pub counted : List Siger × List AgentCue
    pub between : Baser
    pub stripped : strip_membered prim k input db ≡ ok (counted, between)
    pub signed :
        IsSigned (verify_indexed_signatures prim input.serder.raw counted.0 input.verfers) between
    pub witnessed :
        IsWitnessed
          (verify_indexed_signatures prim input.serder.raw counted.0 input.verfers).sigers
          v
          between
          db'

  finished :
      (remote : List AgentCue) (sigers : List Siger) (v : VerifiedAttachments) (db db' : Baser)
      (d : AttachmentDecision)
      → witness_gate k input db (length receipts) ≡ enough_receipts
      → validate_delegation prim k input db ≡ ok (d, db')
      → finish input remote sigers receipts d ≡ attachment_verified v
      → IsWitnessed sigers v db db'
  unfolding finish
  finished remote sigers v db db' (attachment_reject code) gate e h = cc
  finished remote sigers v db db' (attachment_escrow reason instruction cues) gate e h = cc
  finished remote sigers v db db' (attachment_verified d) gate e h = record {
    gate = gate;
    delegation = d;
    delegated = e;
    same_sigers = cc h;
    same_wigers = cc h;
    same_wits = cc h;
  }

  gated :
      (remote : List AgentCue) (sigers : List Siger) (v : VerifiedAttachments) (db db' : Baser)
      (g : WitnessGate)
      → witness_gate k input db (length receipts) ≡ g
      → after_receipts prim k input remote sigers receipts db g ≡ ok (attachment_verified v, db')
      → IsWitnessed sigers v db db'
  unfolding after_receipts make_attachment_escrow_decision
  gated remote sigers v db db' bad_witness_threshold e h = cc
  gated remote sigers v db db' few_receipts e h = cc h
  gated remote sigers v db db' enough_receipts e h =
      >>=-cases (validate_delegation prim k input db) _ h
        λ r er done. finished remote sigers v db db' r.0 e (er ∙ cc done) (cc done)

  receipts-IsWitnessed :
      (remote : List AgentCue) (sigers : List Siger) (v : VerifiedAttachments) (db db' : Baser)
      → validate_receipts prim k input remote sigers db ≡ ok (attachment_verified v, db')
      → IsWitnessed sigers v db db'
  unfolding validate_receipts
  receipts-IsWitnessed remote sigers v db db' h =
      >>=-cases (guard (every prim.is_verfer input.wits) invalid_verfer) _ h
        λ u e h1. gated remote sigers v db db' (witness_gate k input db (length receipts)) refl h1

  signed-IsSigned :
      (remote : List AgentCue) (verified : SignerVerificationResult) (v : VerifiedAttachments)
      (db db' : Baser)
      → validate_signed prim k input remote verified db ≡ ok (attachment_verified v, db')
      → IsSigned verified db × IsWitnessed verified.sigers v db db'
  unfolding validate_signed make_attachment_escrow_decision
  signed-IsSigned remote verified v db db' h =
      past (length verified.sigers == 0) h (λ e. absurd (cc e))
        λ some_signer h1.
          past (is_misfit k input db) h1 (λ e. absurd (cc e))
            λ no_misfit h2.
              >>=-cases (satisfies input.tholder verified.indices) _ h2 λ enough es h3.
                past (not enough) h3 (λ e. absurd (cc e))
                  λ is_enough h4.
                    >>=-cases (satisfies_prior_next prim k input verified.sigers) _ h4
                      λ exposed ep h5.
                        past (not exposed) h5 (λ e. absurd (cc e))
                          λ is_exposed h6. (
                            record {
                              some_signer = some_signer;
                              no_misfit = no_misfit;
                              controllers = es ∙ ap ok (ground (arith, is_enough));
                              prior_next = ep ∙ ap ok (ground (arith, is_exposed));
                            },
                            receipts-IsWitnessed remote verified.sigers v db db' h6,
                          )

-- Where `validateAttachments` verifies an event, the threshold material fits the keys, some counted
-- signature verified, the event is no misfit, the indices that verified satisfy the controller
-- threshold and the exposed digests the prior-next one, the witness receipts that verified were
-- enough, the delegation was verified, and the attachments are the signatures that verified.
pub validate-IsAuthorized :
    (prim : Primitives) (k : Kever) (input : AttachmentValidationInput) (db db' : Baser)
    (v : VerifiedAttachments)
    → validate_attachments prim k input db ≡ ok (attachment_verified v, db')
    → IsAuthorized prim k input v db db'
unfolding validate_attachments
validate-IsAuthorized prim k input db db' v h =
    past (not (has_valid_threshold_material input.tholder (length input.verfers))) h
      (λ e. absurd (cc e))
      λ material h1. >>=-cases (strip_membered prim k input db) _ h1 λ counted es h2.
        let (signed, witnessed) =
          signed-IsSigned prim k input counted.0.1
            (verify_indexed_signatures prim input.serder.raw counted.0.0 input.verfers) v counted.1
            db' h2 in
        record {
          valid = ground (arith, material);
          counted = counted.0;
          between = counted.1;
          stripped = es;
          signed = signed;
          witnessed = witnessed;
        }
