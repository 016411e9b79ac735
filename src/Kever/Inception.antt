-- ===== src/Kever/Inception.antt =====
-- packages/keri/src/core/kever.ts: `verifyIncept`, `initialKeyState` and `evaluateInception`. The
-- proofs are in the child module.
pub mod Founded
use keri_ts.Prelude.{
  ℕ, Bool, true, not, ◌&&◌, ◌||◌, Option, none, some, List, [], ◌∷◌, String, ltb, ◌==◌,
  if◌then◌else◌, length, or_else, or_maybe, is_some, truthy, first,
}
use keri_ts.Prelude.Sets.{string_eq, has, has_unique_entries}
use keri_ts.Prelude.Result.{ok, ◌>>=◌}
use keri_ts.Event.{Serder, FirstSeenReplayCouple, SourceSeal, KeyStateRecord, KeverEventInit}
use keri_ts.Event.Decision.{
  RejectKind, invalid_pre, invalid_sn, invalid_ilk, invalid_threshold, nontransferable_violation,
  invalid_witness_list, invalid_witness_threshold, KelEventState, KeverTransition, create,
  inception_kind, VerifiedAttachments, AttachmentDecision, attachment_verified, attachment_escrow,
  attachment_reject, KeverDecision, kever_accept, kever_reject,
}
use keri_ts.Kever.{Primitives, Baser, has_valid_threshold_material}
use keri_ts.Kever.Load.{load_state, sith_of, config_traits}
use keri_ts.Kever.Store.{Step}
use keri_ts.Kever.Backers.{toader_fits, is_inceptive}
use keri_ts.Kever.Inputs.{AttachmentValidationInput, from_attachment_decision}
use keri_ts.Kever.Attachments.{validate_attachments}

-- The body of an inception; `none` where nothing is wrong.
unfoldable pub verify_incept : Primitives → Serder → Option RejectKind
unfolding toader_fits is_inceptive has_valid_threshold_material
verify_incept prim serder =
    let transferable = prim.is_transferable (or_else serder.pre "") in
    if not (truthy serder.pre)
    then some invalid_pre
    else if not (prim.is_prefix (or_else serder.pre ""))
    then some invalid_pre
    else if not (truthy serder.said) || not (is_some serder.sn)
    then some invalid_sn
    else if not (is_inceptive serder)
    then some invalid_ilk
    else if not (or_else serder.sn 0 == 0)
    then some invalid_sn
    else if not (has_valid_threshold_material serder.tholder (length serder.verfers))
    then some invalid_threshold
    else if not transferable && ltb 0 (length serder.ndigers)
    then some nontransferable_violation
    else if not transferable && ltb 0 (length serder.backs)
    then some nontransferable_violation
    else if not (has_unique_entries serder.backs)
    then some invalid_witness_list
    else if not (toader_fits (or_else serder.bner 0) (length serder.backs))
    then some invalid_witness_threshold
    else if not transferable && ltb 0 serder.seals
    then some nontransferable_violation
    else none

abbrev pub replay_fn : Option FirstSeenReplayCouple → ℕ
replay_fn none = 0
replay_fn (some frc) = frc.firner

abbrev pub replay_date : Option FirstSeenReplayCouple → String → String
replay_date none now = now
replay_date (some frc) now = frc.dater

unfoldable pub initial_key_state :
    Primitives → Serder → String → String → ℕ → Option FirstSeenReplayCouple → KeyStateRecord
initial_key_state prim serder pre said toader frc = record {
  vn = serder.version.0 ∷ serder.version.1 ∷ [];
  i = some pre;
  s = some 0;
  p = some "";
  d = some said;
  f = some (replay_fn frc);
  dt = some (replay_date frc prim.now);
  et = some (or_else serder.ilk "icp");
  kt = some (sith_of serder.tholder);
  k = some serder.verfers;
  nt = some (sith_of serder.ntholder);
  n = some serder.ndigers;
  bt = some toader;
  b = some serder.backs;
  c = some (config_traits (has "EO" serder.traits) (has "DND" serder.traits));
  ee = some (record { s = some 0; d = some said; br = some []; ba = some [] });
  di = some (or_else serder.delpre "");
}

-- The key state of the inception, before its attachments are looked at.
abbrev pub provisional_state : Primitives → KeverEventInit → KeyStateRecord
provisional_state prim init =
    initial_key_state prim init.serder (or_else init.serder.pre "") (or_else init.serder.said "")
      (or_else init.serder.bner 0) (first init.frcs)

-- `(init.ssts?.[0] ?? init.sscs?.[0]) ?? null`
abbrev pub inception_seal : KeverEventInit → Option SourceSeal
inception_seal init = or_maybe (first init.ssts) (first init.sscs)

abbrev pub inception_input : KeverEventInit → AttachmentValidationInput
inception_input init = record {
  serder = init.serder;
  sigers = init.sigers;
  wigers = init.wigers;
  verfers = init.serder.verfers;
  tholder = init.serder.tholder;
  wits = init.serder.backs;
  toader = or_else init.serder.bner 0;
  delpre = init.serder.delpre;
  source_seal = inception_seal init;
  local = init.local;
  eager = init.eager;
  is_establishment = true;
}

abbrev pub inception_transition :
    Primitives → KeverEventInit → VerifiedAttachments → KeverTransition
inception_transition prim init attachments = record {
  mode = create;
  accept_kind = inception_kind;
  pre = or_else init.serder.pre "";
  said = or_else init.serder.said "";
  sn = or_else init.serder.sn 0;
  state = provisional_state prim init;
  log = record {
    serder = init.serder;
    sigers = attachments.sigers;
    wigers = attachments.wigers;
    wits = some attachments.wits;
    first = not init.check;
    frc = first init.frcs;
    source_seal = or_maybe attachments.source_seal (inception_seal init);
    local = init.local;
  };
}

unfoldable pub conclude_inception : Primitives → KeverEventInit → AttachmentDecision → KeverDecision
conclude_inception prim init (attachment_verified attachments) =
    kever_accept (inception_transition prim init attachments) attachments.cues
conclude_inception prim init (attachment_escrow reason instruction cues) =
    from_attachment_decision (attachment_escrow reason instruction cues)
conclude_inception prim init (attachment_reject code) =
    from_attachment_decision (attachment_reject code)

-- The attachments are looked at by the live state that the provisional key state makes.
unfoldable pub incept_unless :
    Primitives → KeverEventInit → Baser → Option RejectKind → Step KeverDecision
unfolding conclude_inception load_state validate_attachments initial_key_state
incept_unless prim init db (some code) = ok (kever_reject code, db)
incept_unless prim init db none =
    load_state prim (provisional_state prim init) init.serder >>= λ scratch.
    validate_attachments prim scratch (inception_input init) db >>= λ r.
    ok (conclude_inception prim init r.0, r.1)

unfoldable pub evaluate_inception : Primitives → KeverEventInit → Baser → Step KeverDecision
unfolding verify_incept incept_unless
evaluate_inception prim init db = incept_unless prim init db (verify_incept prim init.serder)
