-- ===== src/Kever/Rotation.antt =====
-- packages/keri/src/core/kever.ts: `evaluateRotation`, for a rotation or a delegated rotation, in
-- order or as a recovery.
use keri_ts.Prelude.{
  ℕ, ◌+◌, Bool, true, not, ◌&&◌, ◌||◌, Option, none, some, [], ◌∷◌, String, str_eq, ltb, leb,
  if◌then◌else◌, length, or_else, equals, truthy, first, non_empty,
}
use keri_ts.Prelude.Sets.{string_eq, has}
use keri_ts.Prelude.Result.{Result, ok, err, ◌>>=◌}
use keri_ts.Event.{Serder, KeyStateRecord, KeverEventInit}
use keri_ts.Event.Decision.{
  RejectKind, invalid_delegation, stale, invalid_recovery, invalid_prior_digest, invalid_threshold,
  invalid_witness_list, ooo, KeverTransition, update, update_kind, recovery_kind,
  VerifiedAttachments, AttachmentDecision, attachment_verified, attachment_escrow,
  attachment_reject, KeverDecision, kever_accept, kever_reject,
}
use keri_ts.Kever.{
  Primitives, Thrown, uncomparable_saids, Kever, Baser, has_valid_threshold_material,
}
use keri_ts.Kever.Load.{sith_of, config_traits}
use keri_ts.Kever.Store.{Step, get_evt_serder, get_last_before}
use keri_ts.Kever.Backers.{DerivedBacksResult, derive_backs_decision}
use keri_ts.Kever.Inputs.{
  AttachmentValidationInput, from_attachment_decision, make_escrow_decision, normalize_source_seal,
}
use keri_ts.Kever.Attachments.{validate_attachments}

-- `pserder.compare(serder.prior ?? "")`: a comparison with a missing text throws.
unfoldable pub compare_saids : Serder → Option String → Result Thrown Bool
compare_saids pserder prior =
    if not (truthy prior) || not (truthy pserder.said)
    then err uncomparable_saids
    else ok (equals prior (or_else pserder.said ""))

-- The accepted event before the recovery point, against the one that the recovery names.
unfoldable pub prior_matches : Kever → Serder → Option Serder → Result Thrown (Option RejectKind)
unfolding compare_saids
prior_matches k serder none = ok (some invalid_recovery)
prior_matches k serder (some pserder) =
    compare_saids pserder serder.prior >>= λ same. ok (if same then none else some invalid_recovery)

unfoldable pub recovery_prior :
    Kever → Serder → Baser → Option String → Result Thrown (Option RejectKind)
unfolding prior_matches
recovery_prior k serder db none = ok (some invalid_recovery)
recovery_prior k serder db (some pdig) = prior_matches k serder (get_evt_serder db k.pre pdig)

-- What is wrong with a rotation at a sequence number that is taken already.
unfoldable pub recovery_fault :
    Kever → Serder → String → ℕ → Baser → Result Thrown (Option RejectKind)
unfolding recovery_prior
recovery_fault k serder ilk sn db =
    if str_eq ilk "rot" && leb sn k.last_est.s || str_eq ilk "drt" && ltb sn k.last_est.s
    then ok (some stale)
    else if str_eq ilk "rot" && not (str_eq k.ilk "ixn")
    then ok (some invalid_recovery)
    else recovery_prior k serder db (non_empty (get_last_before db.kels k.pre sn))

-- `this.said`
abbrev pub kever_said : Kever → String
kever_said k = or_else k.serder.said ""

unfoldable pub prior_fault : Kever → Serder → String → ℕ → Baser → Result Thrown (Option RejectKind)
unfolding recovery_fault
prior_fault k serder ilk sn db =
    if leb sn k.sn
    then recovery_fault k serder ilk sn db
    else if not (equals serder.prior (kever_said k))
    then ok (some invalid_prior_digest)
    else ok none

abbrev pub rotation_input :
    Kever → KeverEventInit → Bool → DerivedBacksResult → AttachmentValidationInput
rotation_input k init local derived = record {
  serder = init.serder;
  sigers = init.sigers;
  wigers = init.wigers;
  verfers = init.serder.verfers;
  tholder = init.serder.tholder;
  wits = derived.wits;
  toader = derived.toader;
  delpre = k.delpre;
  source_seal = normalize_source_seal init.sscs init.ssts;
  local = local;
  eager = init.eager;
  is_establishment = true;
}

abbrev pub rotation_state : Kever → Serder → String → ℕ → DerivedBacksResult → KeyStateRecord
rotation_state k serder ilk sn derived = record {
  vn = k.version.0 ∷ k.version.1 ∷ [];
  i = some k.pre;
  s = some sn;
  p = some (or_else serder.prior "");
  d = some (or_else serder.said "");
  f = some k.fn;
  dt = some k.dater;
  et = some ilk;
  kt = some (sith_of serder.tholder);
  k = some serder.verfers;
  nt = some (sith_of serder.ntholder);
  n = some serder.ndigers;
  bt = some derived.toader;
  b = some derived.wits;
  c = some (config_traits (has "EO" serder.traits) (has "DND" serder.traits));
  ee = some (record {
    s = some sn;
    d = some (or_else serder.said "");
    br = some derived.cuts;
    ba = some derived.adds;
  });
  di = some (or_else k.delpre "");
}

abbrev pub rotation_transition :
    Kever
    → KeverEventInit
    → Bool
    → String
    → ℕ
    → DerivedBacksResult
    → VerifiedAttachments
    → KeverTransition
rotation_transition k init local ilk sn derived attachments = record {
  mode = update;
  accept_kind = if leb sn k.sn then recovery_kind else update_kind;
  pre = k.pre;
  said = or_else init.serder.said "";
  sn = sn;
  state = rotation_state k init.serder ilk sn derived;
  log = record {
    serder = init.serder;
    sigers = attachments.sigers;
    wigers = attachments.wigers;
    wits = some attachments.wits;
    first = not init.check;
    frc = first init.frcs;
    source_seal = attachments.source_seal;
    local = local;
  };
}

unfoldable pub conclude_rotation :
    Kever
    → KeverEventInit
    → Bool
    → String
    → ℕ
    → DerivedBacksResult
    → AttachmentDecision
    → KeverDecision
conclude_rotation k init local ilk sn derived (attachment_verified attachments) =
    kever_accept (rotation_transition k init local ilk sn derived attachments) attachments.cues
conclude_rotation k init local ilk sn derived (attachment_escrow reason instruction cues) =
    from_attachment_decision (attachment_escrow reason instruction cues)
conclude_rotation k init local ilk sn derived (attachment_reject code) =
    from_attachment_decision (attachment_reject code)

-- With the witness list after the rotation, or none where its cuts and adds are refused.
unfoldable pub rotate_backs :
    Primitives
    → Kever
    → KeverEventInit
    → Bool
    → String
    → ℕ
    → Baser
    → Option DerivedBacksResult
    → Step KeverDecision
unfolding conclude_rotation validate_attachments
rotate_backs prim k init local ilk sn db none = ok (kever_reject invalid_witness_list, db)
rotate_backs prim k init local ilk sn db (some derived) =
    validate_attachments prim k (rotation_input k init local derived) db >>= λ r.
    ok (conclude_rotation k init local ilk sn derived r.0, r.1)

-- A rotation that is in its place in the log.
unfoldable pub rotate :
    Primitives → Kever → KeverEventInit → Bool → String → ℕ → Baser → Step KeverDecision
unfolding rotate_backs derive_backs_decision has_valid_threshold_material
rotate prim k init local ilk sn db =
    if not (has_valid_threshold_material init.serder.tholder (length init.serder.verfers))
    then ok (kever_reject invalid_threshold, db)
    else rotate_backs prim k init local ilk sn db (derive_backs_decision k.wits init.serder)

unfoldable pub rotate_unless :
    Primitives
    → Kever
    → KeverEventInit
    → Bool
    → String
    → ℕ
    → Baser
    → Option RejectKind
    → Step KeverDecision
unfolding rotate
rotate_unless prim k init local ilk sn db (some code) = ok (kever_reject code, db)
rotate_unless prim k init local ilk sn db none = rotate prim k init local ilk sn db

unfoldable pub evaluate_rotation :
    Primitives → Kever → KeverEventInit → Bool → ℕ → Baser → Step KeverDecision
unfolding rotate_unless prior_fault make_escrow_decision
evaluate_rotation prim k init local sn db =
    let ilk : String = or_else init.serder.ilk "rot" in
    if k.delegated && not (str_eq ilk "drt")
    then ok (kever_reject invalid_delegation, db)
    else if not k.delegated && str_eq ilk "drt"
    then ok (kever_reject invalid_delegation, db)
    else if ltb (k.sn + 1) sn
    then ok (make_escrow_decision k ooo init [], db)
    else (prior_fault k init.serder ilk sn db >>= λ fault.
        rotate_unless prim k init local ilk sn db fault)
