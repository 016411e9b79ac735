-- ===== src/Kever/Update.antt =====
-- packages/keri/src/core/kever.ts: `evaluateInteraction` and `evaluateUpdate`, which routes an event
-- to it or to `evaluateRotation`; and the state an accepted transition leaves. The proofs are in
-- the child modules.
pub mod Chain
pub mod Accepted
use keri_ts.Prelude.{
  ℕ, ◌+◌, Bool, false, not, ◌||◌, Option, none, some, List, [], ◌∷◌, String, str_eq, ltb, leb,
  if◌then◌else◌, or_else, equals, non_empty, first,
}
use keri_ts.Prelude.Result.{Result, ok, ◌>>=◌}
use keri_ts.Event.{Serder, KeyStateRecord, KeverEventInit}
use keri_ts.Event.Decision.{
  est_only_violation, ooo, stale, invalid_prior_digest, nontransferable_violation, invalid_pre,
  invalid_ilk, invalid_sn, unsupported, KeverTransition, update, update_kind, VerifiedAttachments,
  AttachmentDecision, attachment_verified, attachment_escrow, attachment_reject, KeverDecision,
  kever_accept, kever_reject,
}
use keri_ts.Kever.{Primitives, Thrown, Kever, Baser}
use keri_ts.Kever.Load.{load_state, sith_of, config_traits}
use keri_ts.Kever.Store.{Step}
use keri_ts.Kever.Inputs.{AttachmentValidationInput, from_attachment_decision, make_escrow_decision}
use keri_ts.Kever.Attachments.{validate_attachments}
use keri_ts.Kever.Rotation.{kever_said, evaluate_rotation}

abbrev pub interaction_input : Kever → KeverEventInit → Bool → AttachmentValidationInput
interaction_input k init local = record {
  serder = init.serder;
  sigers = init.sigers;
  wigers = init.wigers;
  verfers = k.verfers;
  tholder = k.tholder;
  wits = k.wits;
  toader = k.toader;
  delpre = none;
  source_seal = none;
  local = local;
  eager = init.eager;
  is_establishment = false;
}

abbrev pub interaction_state : Kever → Serder → ℕ → KeyStateRecord
interaction_state k serder sn = record {
  vn = k.version.0 ∷ k.version.1 ∷ [];
  i = some k.pre;
  s = some sn;
  p = some (or_else serder.prior "");
  d = some (or_else serder.said "");
  f = some k.fn;
  dt = some k.dater;
  et = some "ixn";
  kt = some (sith_of k.tholder);
  k = some k.verfers;
  nt = some (sith_of k.ntholder);
  n = some k.ndigers;
  bt = some k.toader;
  b = some k.wits;
  c = some (config_traits k.est_only k.do_not_delegate);
  ee =
      some (record {
        s = some k.last_est.s;
        d = some k.last_est.d;
        br = some k.cuts;
        ba = some k.adds;
      });
  di = some (or_else k.delpre "");
}

abbrev pub interaction_transition :
    Kever → KeverEventInit → Bool → ℕ → VerifiedAttachments → KeverTransition
interaction_transition k init local sn attachments = record {
  mode = update;
  accept_kind = update_kind;
  pre = k.pre;
  said = or_else init.serder.said "";
  sn = sn;
  state = interaction_state k init.serder sn;
  log = record {
    serder = init.serder;
    sigers = attachments.sigers;
    wigers = attachments.wigers;
    wits = none;
    first = not init.check;
    frc = first init.frcs;
    source_seal = none;
    local = local;
  };
}

unfoldable pub conclude_interaction :
    Kever → KeverEventInit → Bool → ℕ → AttachmentDecision → KeverDecision
conclude_interaction k init local sn (attachment_verified attachments) =
    kever_accept (interaction_transition k init local sn attachments) attachments.cues
conclude_interaction k init local sn (attachment_escrow reason instruction cues) =
    from_attachment_decision (attachment_escrow reason instruction cues)
conclude_interaction k init local sn (attachment_reject code) =
    from_attachment_decision (attachment_reject code)

unfoldable pub evaluate_interaction :
    Primitives → Kever → KeverEventInit → Bool → ℕ → Baser → Step KeverDecision
unfolding conclude_interaction validate_attachments make_escrow_decision
evaluate_interaction prim k init local sn db =
    if k.est_only
    then ok (kever_reject est_only_violation, db)
    else if ltb (k.sn + 1) sn
    then ok (make_escrow_decision k ooo init [], db)
    else if leb sn k.sn
    then ok (kever_reject stale, db)
    else if not (equals init.serder.prior (kever_said k))
    then ok (kever_reject invalid_prior_digest, db)
    else (validate_attachments prim k (interaction_input k init local) db >>= λ r.
        ok (conclude_interaction k init local sn r.0, r.1))

-- The event's type and sequence number are there.
unfoldable pub route_update :
    Primitives → Kever → KeverEventInit → String → ℕ → Baser → Step KeverDecision
unfolding evaluate_rotation evaluate_interaction
route_update prim k init ilk sn db =
    if str_eq ilk "rot" || str_eq ilk "drt"
    then evaluate_rotation prim k init init.local sn db
    else if str_eq ilk "ixn"
    then evaluate_interaction prim k init init.local sn db
    else ok (kever_reject unsupported, db)

unfoldable pub route_sn :
    Primitives → Kever → KeverEventInit → Baser → String → Option ℕ → Step KeverDecision
unfolding route_update
route_sn prim k init db ilk none = ok (kever_reject invalid_sn, db)
route_sn prim k init db ilk (some sn) = route_update prim k init ilk sn db

unfoldable pub route_ilk :
    Primitives → Kever → KeverEventInit → Baser → Option String → Step KeverDecision
unfolding route_sn
route_ilk prim k init db none = ok (kever_reject invalid_ilk, db)
route_ilk prim k init db (some ilk) = route_sn prim k init db ilk init.serder.sn

unfoldable pub evaluate_update : Primitives → Kever → KeverEventInit → Baser → Step KeverDecision
unfolding route_ilk
evaluate_update prim k init db =
    if not k.transferable
    then ok (kever_reject nontransferable_violation, db)
    else if not (equals init.serder.pre k.pre)
    then ok (kever_reject invalid_pre, db)
    else route_ilk prim k init db (non_empty init.serder.ilk)

-- `applyTransition`, and `fromTransition`: the state is made from the transition's record.
unfoldable pub apply_transition : Primitives → KeverTransition → Result Thrown Kever
unfolding load_state
apply_transition prim transition = load_state prim transition.state transition.log.serder
