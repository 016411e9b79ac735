-- ===== src/Kever/Attachments.antt =====
-- packages/keri/src/core/kever.ts: `validateAttachmentsInternal`, its gates in order. The proofs are
-- in the child modules.
pub mod Accepted
pub mod Held
pub mod Protected
pub mod Validated
use keri_ts.Prelude.{
  ℕ, Bool, true, false, not, ◌&&◌, ◌||◌, Option, none, some, List, [], ◌∷◌, ◌++◌, map, String, ltb,
  ◌==◌, if◌then◌else◌, length, keep, every, is_some, equals, or_maybe,
}
use keri_ts.Prelude.Sets.{nat_eq, has}
use keri_ts.Prelude.Result.{Result, ok, err, guard, ◌>>=◌, ◌>>◌}
use keri_ts.Threshold.Tholder.{Tholder, satisfy}
use keri_ts.Event.{Serder, Siger}
use keri_ts.Event.Decision.{
  AgentCue, remote_membered_sig, query_event, VerifiedAttachments, AttachmentDecision,
  attachment_verified, attachment_escrow, attachment_reject, invalid_threshold,
  invalid_witness_threshold, misfit, partial_sigs, partial_wigs,
}
use keri_ts.Kever.{
  Primitives, Thrown, bad_threshold, invalid_verfer, Kever, Baser, has_valid_threshold_material,
}
use keri_ts.Kever.Store.{
  Step, locally_owned, locally_delegated, locally_membered, locally_witnessed,
}
use keri_ts.Kever.Inputs.{AttachmentValidationInput, make_attachment_escrow_decision}
use keri_ts.Kever.Signatures.{
  SignerVerificationResult, verify_indexed_signatures, exposeds, locally_contributed_indices,
}
use keri_ts.Kever.Delegation.{is_delegated_establishment, is_protected, validate_delegation}

-- The controller signatures that count, and the cues on those that do not.
abbrev pub Stripped : Type 0
Stripped = List Siger × List AgentCue

unfoldable pub strip : Serder → List ℕ → List Siger → Stripped
strip serder indices sigers = (
  keep (λ (siger : Siger). not (has siger.index indices)) sigers,
  map (λ (siger : Siger). remote_membered_sig serder siger.index)
      (keep (λ (siger : Siger). has siger.index indices) sigers),
)

-- Signatures from remote sources do not count for the keys of local members.
unfoldable pub strip_membered :
    Primitives → Kever → AttachmentValidationInput → Baser → Step Stripped
unfolding strip locally_contributed_indices
strip_membered prim k input db =
    if not input.local && locally_membered db k.pre
    then (locally_contributed_indices prim db input.verfers >>= λ found.
        ok (strip input.serder found.0 input.sigers, found.1))
    else ok ((input.sigers, []), db)

-- A nonlocal event of a protected party, other than one that waits for a local delegator.
unfoldable pub is_misfit : Kever → AttachmentValidationInput → Baser → Bool
is_misfit k input db =
    let candidate : Bool =
      is_delegated_establishment input.serder
      && locally_delegated db input.delpre
      && not (locally_owned db k.pre) in
    not input.local
    && (locally_owned db k.pre
        || locally_witnessed db input.wits
        || (locally_delegated db input.delpre && not candidate))

-- `tholder && tholder.satisfy(indices)`, which may throw
unfoldable pub satisfies : Option Tholder → List ℕ → Result Thrown Bool
satisfies none indices = ok false
satisfies (some tholder) indices = elim (satisfy tholder indices) [
  | ok b ↦ ok b
  | err e ↦ err (bad_threshold e)
]

unfoldable pub is_rotation : Serder → Bool
is_rotation serder = equals serder.ilk "rot" || equals serder.ilk "drt"

-- The threshold that the current state sets for the keys of the next establishment.
unfoldable pub satisfies_prior_next :
    Primitives → Kever → AttachmentValidationInput → List Siger → Result Thrown Bool
unfolding satisfies
satisfies_prior_next prim k input sigers =
    if input.is_establishment && is_some k.ntholder && is_rotation input.serder
    then satisfies k.ntholder (exposeds prim k.ndigers sigers)
    else ok true

-- What the witness receipts lack.
pub data WitnessGate : Type 0 where
  enough_receipts : WitnessGate
  bad_witness_threshold : WitnessGate
  few_receipts : WitnessGate

unfoldable pub witness_gate : Kever → AttachmentValidationInput → Baser → ℕ → WitnessGate
unfolding is_protected
witness_gate k input db receipts =
    if length input.wits == 0
    then (if input.toader == 0 then enough_receipts else bad_witness_threshold)
    else if is_protected k input.wits db
    then enough_receipts
    else if ltb input.toader 1 || ltb (length input.wits) input.toader
    then bad_witness_threshold
    else if ltb receipts input.toader
    then few_receipts
    else enough_receipts

-- The cues of a delegation's escrow, and the decision on a delegation that holds.
unfoldable pub finish :
    AttachmentValidationInput
    → List AgentCue
    → List Siger
    → List Siger
    → AttachmentDecision
    → AttachmentDecision
finish input remote sigers wigers (attachment_reject code) = attachment_reject code
finish input remote sigers wigers (attachment_escrow reason instruction cues) =
    attachment_escrow reason instruction (cues ++ remote)
finish input remote sigers wigers (attachment_verified delegation) = attachment_verified (record {
  sigers = sigers;
  wigers = wigers;
  wits = input.wits;
  delpre = input.delpre;
  source_seal = or_maybe delegation.source_seal input.source_seal;
  cues = remote ++ delegation.cues;
})

-- What follows from the receipts: the delegation, where they are enough.
unfoldable pub after_receipts :
    Primitives
    → Kever
    → AttachmentValidationInput
    → List AgentCue
    → List Siger
    → List Siger
    → Baser
    → WitnessGate
    → Step AttachmentDecision
unfolding finish validate_delegation
after_receipts prim k input remote sigers wigers db bad_witness_threshold =
    ok (attachment_reject invalid_witness_threshold, db)
after_receipts prim k input remote sigers wigers db few_receipts = ok (
  make_attachment_escrow_decision k partial_wigs input
      (remote ++ query_event input.serder.pre input.serder.snh ∷ []),
  db,
)
after_receipts prim k input remote sigers wigers db enough_receipts =
    validate_delegation prim k input db >>= λ r. ok (finish input remote sigers wigers r.0, r.1)

-- From the witness receipts on.
unfoldable pub validate_receipts :
    Primitives
    → Kever
    → AttachmentValidationInput
    → List AgentCue
    → List Siger
    → Baser
    → Step AttachmentDecision
unfolding witness_gate after_receipts
validate_receipts prim k input remote sigers db = do
  guard (every prim.is_verfer input.wits) invalid_verfer
  let wigers = (verify_indexed_signatures prim input.serder.raw input.wigers input.wits).sigers
  after_receipts prim k input remote sigers wigers db (witness_gate k input db (length wigers))

-- From the misfit check on, with the signatures that verified.
unfoldable pub validate_signed :
    Primitives
    → Kever
    → AttachmentValidationInput
    → List AgentCue
    → SignerVerificationResult
    → Baser
    → Step AttachmentDecision
unfolding validate_receipts satisfies_prior_next is_misfit
validate_signed prim k input remote verified db =
    if length verified.sigers == 0
    then ok (attachment_reject invalid_threshold, db)
    else if is_misfit k input db
    then ok (make_attachment_escrow_decision k misfit input remote, db)
    else (satisfies input.tholder verified.indices >>= λ enough.
        if not enough
        then ok (make_attachment_escrow_decision k partial_sigs input remote, db)
        else (satisfies_prior_next prim k input verified.sigers >>= λ exposed.
            if not exposed
            then ok (make_attachment_escrow_decision k partial_sigs input remote, db)
            else validate_receipts prim k input remote verified.sigers db))

unfoldable pub validate_attachments :
    Primitives → Kever → AttachmentValidationInput → Baser → Step AttachmentDecision
unfolding validate_signed strip_membered
validate_attachments prim k input db =
    if not (has_valid_threshold_material input.tholder (length input.verfers))
    then ok (attachment_reject invalid_threshold, db)
    else (strip_membered prim k input db >>= λ counted.
        validate_signed prim k input counted.0.1
          (verify_indexed_signatures prim input.serder.raw counted.0.0 input.verfers) counted.1)
