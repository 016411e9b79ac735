-- ===== src/Kever/Tests.antt =====
-- The theorems on the key-event state machine at concrete inputs: an inception, the rotation that
-- follows it and adds a witness, a delegating event and a recovery.
use keri_ts.Prelude.{
  ℕ, ◌≡◌, refl, Bool, true, false, Option, none, some, List, [], ◌∷◌, String, str_eq, or_else,
  non_empty, length,
}
use keri_ts.Prelude.Sets.{string_eq, has, IsUnique}
use keri_ts.Prelude.Result.{ok, err}
use keri_ts.Threshold.Error.{invalid_entry}
use keri_ts.Threshold.Tholder.{Tholder, count, text}
use keri_ts.Witness.Rotated.{IsRotated}
use keri_ts.Event.{Serder, Siger, KeverEventInit}
use keri_ts.Event.Decision.{VerifiedAttachments, attachment_verified, KeverTransition, kever_accept}
use keri_ts.Kever.{Primitives, Kever, Baser}
use keri_ts.Kever.Backers.{DerivedBacksResult, derive_backs_decision}
use keri_ts.Kever.Backers.Rotated.{IsFit, witness_set, derive_backs-IsRotated}
use keri_ts.Kever.Signatures.{verify_indexed_signatures}
use keri_ts.Kever.Signatures.Verified.{IsVerification, verify_indexed-IsVerification}
use keri_ts.Kever.Inputs.{AttachmentValidationInput}
use keri_ts.Kever.Seals.{DelegatingEventLookup}
use keri_ts.Kever.Seals.Fetch.{fetch_current}
use keri_ts.Kever.Seals.Found.{IsSealing, fetch_current-IsSealing}
use keri_ts.Kever.Delegation.{is_protected, validate_delegation}
use keri_ts.Kever.Delegation.Approved.{IsApproved, validate_delegation-IsApproved}
use keri_ts.Kever.Delegation.Returned.{Concludes, validate_delegation-returns}
use keri_ts.Kever.Recovery.{validate_delegated_recovery}
use keri_ts.Kever.Recovery.Superseding.{Supersedes, recovery-Supersedes}
use keri_ts.Kever.Attachments.{validate_attachments}
use keri_ts.Kever.Attachments.Validated.{IsValidated, validate-IsValidated}
use keri_ts.Kever.Inception.{inception_transition, evaluate_inception}
use keri_ts.Kever.Inception.Founded.{IsFounded, inception-IsFounded}
use keri_ts.Kever.Rotation.{rotation_input, rotation_transition}
use keri_ts.Kever.Update.{evaluate_update}
use keri_ts.Kever.Update.Accepted.{IsUpdate, evaluate_update-IsUpdate}

-- Primitives under which every signature verifies, and a key has the digest of its own text.
abbrev pub prim : Primitives
prim = record {
  verify = λ verfer sig raw. true;
  digest_matches = str_eq;
  is_prefix = λ s. true;
  is_transferable = λ s. true;
  is_verfer = λ s. true;
  is_diger = λ s. true;
  dater = λ s. some s;
  now = "2024";
  parse_json = λ t. err invalid_entry;
}

abbrev pub one_key : Tholder
one_key = record {
  weighted = false;
  num = some 1;
  size = 1;
  thold = count 1;
  semantic = text (b'1' ∷ []);
}

abbrev pub icp : Serder
icp = record {
  raw = 1 ∷ [];
  version = (1, 0);
  ilk = some "icp";
  pre = some "A";
  said = some "E0";
  snh = some "0";
  sn = some 0;
  prior = none;
  delpre = none;
  tholder = some one_key;
  verfers = "K1" ∷ [];
  ntholder = some one_key;
  ndigers = "K2" ∷ [];
  bner = none;
  backs = [];
  cuts = [];
  adds = [];
  traits = [];
  seals = 0;
  event_seals = [];
  anchors = [];
}

abbrev pub rot : Serder
rot = record icp {
  raw = 2 ∷ [];
  ilk = some "rot";
  said = some "E1";
  snh = some "1";
  sn = some 1;
  prior = some "E0";
  verfers = "K2" ∷ [];
  ndigers = "K3" ∷ [];
  bner = some 1;
  adds = "W1" ∷ [];
}

abbrev pub signature : Siger
signature = record { code = "A"; raw = 7 ∷ []; index = 0; ondex = some 0; verfer = none }

abbrev pub empty_db : Baser
empty_db = record {
  evts = [];
  dtss = [];
  sigs = [];
  wigs = [];
  wits = [];
  esrs = [];
  kels = [];
  fels = [];
  fons = [];
  aess = [];
  udes = [];
  ooes = [];
  pses = [];
  pwes = [];
  pdes = [];
  ldes = [];
  delegables = [];
  misfits = [];
  qnfs = [];
  states = [];
  habs = [];
  prefixes = [];
  groups = [];
  kevers = [];
}

abbrev pub icp_init : KeverEventInit
icp_init = record {
  serder = icp;
  sigers = signature ∷ [];
  wigers = [];
  frcs = [];
  sscs = [];
  ssts = [];
  eager = false;
  local = false;
  check = false;
}

abbrev pub icp_attachments : VerifiedAttachments
icp_attachments = record {
  sigers = record signature { verfer = some "K1" } ∷ [];
  wigers = [];
  wits = [];
  delpre = none;
  source_seal = none;
  cues = [];
}

abbrev pub icp_transition : KeverTransition
icp_transition = inception_transition prim icp_init icp_attachments

icp_accepted :
    evaluate_inception prim icp_init empty_db ≡ ok (kever_accept icp_transition [], empty_db)
unfolding evaluate_inception keri_ts.Prelude.Sets.has_unique_entries keri_ts.Kever.Load.need_text
    keri_ts.Kever.Load.need keri_ts.Kever.Load.load_date keri_ts.Kever.Load.load_threshold
    keri_ts.Threshold.Tholder.normalize_threshold_input keri_ts.Prelude.Text.trim
    keri_ts.Prelude.Text.parse_digits keri_ts.Kever.number_primitive_from_bigint
    keri_ts.Kever.Store.locally_membered verify_indexed_signatures keri_ts.Prelude.Sort.sort_by
    keri_ts.Kever.Store.locally_owned keri_ts.Kever.Store.is_single keri_ts.Prelude.Maps.lookup
    keri_ts.Kever.Store.locally_witnessed keri_ts.Kever.Store.locally_delegated
    keri_ts.Threshold.Tholder.satisfy keri_ts.Kever.Attachments.is_rotation
icp_accepted = refl

inception-IsFounded_example : IsFounded prim icp_init icp_transition empty_db empty_db
inception-IsFounded_example =
    inception-IsFounded prim icp_init icp_transition [] empty_db empty_db icp_accepted

abbrev kever : Kever
kever = record {
  version = (1, 0);
  pre = "A";
  transferable = true;
  sn = 0;
  fn = 0;
  dater = "2024";
  serder = icp;
  ilk = "icp";
  tholder = some one_key;
  verfers = "K1" ∷ [];
  ndigers = "K2" ∷ [];
  ntholder = some one_key;
  toader = 0;
  wits = [];
  cuts = [];
  adds = [];
  est_only = false;
  do_not_delegate = false;
  last_est = record { s = 0; d = "E0" };
  delegated = false;
  delpre = none;
}

abbrev rot_init : KeverEventInit
rot_init = record icp_init { serder = rot; wigers = record signature { ondex = none } ∷ [] }

abbrev backs : DerivedBacksResult
backs = record { wits = "W1" ∷ []; cuts = []; adds = "W1" ∷ []; toader = 1 }

abbrev rot_attachments : VerifiedAttachments
rot_attachments = record {
  sigers = record signature { verfer = some "K2" } ∷ [];
  wigers = record signature { ondex = none; verfer = some "W1" } ∷ [];
  wits = "W1" ∷ [];
  delpre = none;
  source_seal = none;
  cues = [];
}

abbrev rot_transition : KeverTransition
rot_transition = rotation_transition kever rot_init false "rot" 1 backs rot_attachments

abbrev rot_input : AttachmentValidationInput
rot_input = rotation_input kever rot_init false backs

rot_backs : derive_backs_decision [] rot ≡ some backs
unfolding derive_backs_decision keri_ts.Kever.Backers.is_inceptive
    keri_ts.Witness.derive_rotated_witness_set keri_ts.Prelude.Sets.has_unique_entries
rot_backs = refl

no_witness_twice : IsUnique {A = String} []
no_witness_twice = tt

derive_backs-IsRotated_example :
    IsRotated [] rot.cuts rot.adds (witness_set backs) × IsFit 1 1 × (1 ≡ or_else rot.bner 0)
unfolding keri_ts.Kever.Backers.is_inceptive
derive_backs-IsRotated_example = derive_backs-IsRotated [] rot backs tt refl rot_backs

rot_verified :
    validate_attachments prim kever rot_input empty_db
    ≡ ok (attachment_verified rot_attachments, empty_db)
unfolding validate_attachments keri_ts.Kever.has_valid_threshold_material
    keri_ts.Kever.Store.locally_membered has verify_indexed_signatures keri_ts.Prelude.Sort.sort_by
    keri_ts.Kever.Store.locally_owned keri_ts.Kever.Store.is_single keri_ts.Prelude.Maps.lookup
    keri_ts.Kever.Store.locally_witnessed keri_ts.Kever.Store.has_hab
    keri_ts.Kever.Store.locally_delegated keri_ts.Threshold.Tholder.satisfy
    keri_ts.Kever.Attachments.is_rotation keri_ts.Kever.Signatures.exposeds
    keri_ts.Kever.Inputs.normalize_source_seal
rot_verified = refl

validate-IsValidated_example : IsValidated prim kever rot_input rot_attachments empty_db empty_db
validate-IsValidated_example =
    validate-IsValidated prim kever rot_input empty_db empty_db rot_attachments rot_verified

rot_accepted :
    evaluate_update prim kever rot_init empty_db ≡ ok (kever_accept rot_transition [], empty_db)
unfolding evaluate_update keri_ts.Kever.Backers.is_inceptive
    keri_ts.Witness.derive_rotated_witness_set keri_ts.Prelude.Sets.has_unique_entries
    keri_ts.Kever.Store.locally_membered verify_indexed_signatures keri_ts.Prelude.Sort.sort_by
    keri_ts.Kever.Store.locally_owned keri_ts.Kever.Store.is_single keri_ts.Prelude.Maps.lookup
    keri_ts.Kever.Store.locally_witnessed keri_ts.Kever.Store.has_hab
    keri_ts.Kever.Store.locally_delegated keri_ts.Threshold.Tholder.satisfy
    keri_ts.Kever.Attachments.is_rotation keri_ts.Kever.Signatures.exposeds
    keri_ts.Kever.Inputs.normalize_source_seal
rot_accepted = refl

evaluate_update-IsUpdate_example : IsUpdate prim kever rot_init rot_transition empty_db empty_db
evaluate_update-IsUpdate_example =
    evaluate_update-IsUpdate prim kever rot_init rot_transition [] empty_db empty_db rot_accepted

-- The identifier is a local one.
abbrev local_db : Baser
local_db = record empty_db { habs = ("A", record { mid = none }) ∷ [] }

verify_indexed-IsVerification_example :
    IsVerification prim
      (1 ∷ [])
      ("K1" ∷ [])
      (signature ∷ signature ∷ [])
      (verify_indexed_signatures prim (1 ∷ []) (signature ∷ signature ∷ []) ("K1" ∷ []))
verify_indexed-IsVerification_example =
    verify_indexed-IsVerification prim (1 ∷ []) (signature ∷ signature ∷ []) ("K1" ∷ [])

-- An interaction of the delegator B that seals the rotation.
abbrev boss : Serder
boss = record icp {
  ilk = some "ixn";
  pre = some "B";
  said = some "D1";
  snh = some "1";
  sn = some 1;
  seals = 1;
  event_seals = record { i = "A"; s = "1"; d = "E1" } ∷ [];
}

abbrev boss_lookup : DelegatingEventLookup
boss_lookup = record { serder = boss; source_seal = record { s = 1; d = "D1" }; seal_index = 0 }

abbrev boss_db : Baser
boss_db = record empty_db {
  evts = (("B", "D1"), boss) ∷ [];
  kels = record { pre = "B"; sn = 1; said = "D1" } ∷ [];
}

boss_found : (fetch_current boss_db "B" rot none true).0 ≡ some boss_lookup
unfolding fetch_current keri_ts.Kever.Seals.accepted_source_seal_for_event
    keri_ts.Prelude.Maps.lookup keri_ts.Kever.Store.get_kel_items keri_ts.Prelude.Sort.sort_by
    keri_ts.Kever.Store.get_evt_serder
boss_found = refl

fetch_current-IsSealing_example : IsSealing boss_db "B" rot boss_lookup
fetch_current-IsSealing_example =
    fetch_current-IsSealing boss_db "B" rot none true boss_lookup boss_found

-- The identifier is delegated to B, whose live state is known.
abbrev drt_input : AttachmentValidationInput
drt_input = record rot_input {
  serder = record rot { ilk = some "drt" };
  delpre = some "B";
  eager = true;
}

abbrev boss_known_db : Baser
boss_known_db = record boss_db { kevers = ("B", kever) ∷ [] }

abbrev drt_attachments : VerifiedAttachments
drt_attachments = record {
  sigers = [];
  wigers = [];
  wits = "W1" ∷ [];
  delpre = some "B";
  source_seal = some (record { s = 1; d = "D1" });
  cues = [];
}

drt_verified :
    validate_delegation prim kever drt_input boss_known_db
    ≡ ok (attachment_verified drt_attachments, boss_known_db)
unfolding validate_delegation keri_ts.Kever.Store.locally_delegated keri_ts.Kever.Store.has_hab
    keri_ts.Prelude.Maps.lookup keri_ts.Kever.Store.locally_owned keri_ts.Kever.Store.is_single
    keri_ts.Kever.Store.locally_membered has keri_ts.Kever.Store.locally_witnessed
    keri_ts.Kever.Store.get_kever fetch_current keri_ts.Kever.Inputs.normalize_source_seal
    keri_ts.Kever.Seals.accepted_source_seal_for_event keri_ts.Kever.Store.get_kel_items
    keri_ts.Prelude.Sort.sort_by keri_ts.Kever.Store.get_evt_serder
drt_verified = refl

drt_delegated : non_empty (some "B") ≡ some "B"
drt_delegated = refl

drt_unprotected : is_protected kever drt_input.wits boss_known_db ≡ false
unfolding is_protected keri_ts.Kever.Store.locally_owned keri_ts.Kever.Store.is_single
    keri_ts.Prelude.Maps.lookup keri_ts.Kever.Store.locally_membered has
    keri_ts.Kever.Store.locally_witnessed keri_ts.Kever.Store.has_hab
drt_unprotected = refl

validate_delegation-IsApproved_example : IsApproved prim kever drt_input "B" boss_known_db
validate_delegation-IsApproved_example =
    validate_delegation-IsApproved prim kever drt_input "B" drt_attachments boss_known_db
      boss_known_db drt_delegated drt_unprotected drt_verified

validate_delegation-returns_example : Concludes prim kever drt_input boss_known_db
validate_delegation-returns_example = validate_delegation-returns prim kever drt_input boss_known_db

abbrev later_lookup : DelegatingEventLookup
later_lookup = record {
  serder = record boss { said = some "D2"; snh = some "2"; sn = some 2 };
  source_seal = record { s = 2; d = "D2" };
  seal_index = 0;
}

later_supersedes :
    validate_delegated_recovery 1 kever rot_input boss_db [] "B" later_lookup boss_lookup
    ≡ ok (none, boss_db)
unfolding validate_delegated_recovery has
later_supersedes = refl

recovery-Supersedes_example : Supersedes false boss_db later_lookup boss_lookup
recovery-Supersedes_example =
    recovery-Supersedes kever rot_input 1 boss_db boss_db [] "B" later_lookup boss_lookup
      later_supersedes
