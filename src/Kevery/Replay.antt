-- ===== src/Kevery/Replay.antt =====
-- packages/keri/src/core/eventing.ts: `processEvent`, and the replay of the escrowed events:
-- `rehydrateEscrowEnvelope`, `replayEscrowEntry`, `processOrdinalEscrow` and `processSetEscrow`.
use keri_ts.Prelude.{
  ℕ, Bool, true, false, not, ◌||◌, Option, none, some, List, [], ◌∷◌, String, if◌then◌else◌,
  or_else, or_maybe, truthy, ◌==◌,
}
use keri_ts.Prelude.Maps.{DgKey, dg_key_eq, lookup}
use keri_ts.Prelude.Result.{ok, ◌>>=◌}
use keri_ts.Tables.{KelItem, SetItem, get_set, top_items, top_set_items}
use keri_ts.Event.{Serder, siger_eq}
use keri_ts.Event.Decision.{
  EscrowKind, ooo, partial_sigs, partial_wigs, partial_dels, delegables, duplicitous, misfit,
  query_not_found, KeverDecision, kever_accept, kever_duplicate, kever_escrow, kever_reject,
}
use keri_ts.Kever.{Primitives, Baser}
use keri_ts.Kever.Store.{Step, get_evt_serder}
use keri_ts.Kevery.{KeverEventEnvelope, decide_event}
use keri_ts.Kevery.Apply.{Pushed, apply_decision}
use keri_ts.Kevery.Escrow.{remove_escrow}
use keri_ts.Kevery.Repair.{repair_escrow_seal, promotable_misfit}

unfoldable pub process_event :
    Primitives → Bool → KeverEventEnvelope → Baser → Step (KeverDecision × Pushed)
unfolding decide_event apply_decision
process_event prim local envelope db = decide_event prim local envelope db >>= λ decided.
    apply_decision prim decided.0 decided.1 >>= λ applied. ok ((decided.0, applied.0), applied.1)

abbrev pub awaits_delegation : EscrowKind → Bool
awaits_delegation partial_dels = true
awaits_delegation delegables = true
awaits_delegation ooo = false
awaits_delegation partial_sigs = false
awaits_delegation partial_wigs = false
awaits_delegation duplicitous = false
awaits_delegation misfit = false
awaits_delegation query_not_found = false

abbrev pub searches_eagerly : EscrowKind → Bool
searches_eagerly partial_sigs = true
searches_eagerly partial_wigs = true
searches_eagerly partial_dels = true
searches_eagerly ooo = false
searches_eagerly delegables = false
searches_eagerly duplicitous = false
searches_eagerly misfit = false
searches_eagerly query_not_found = false

abbrev pub is_misfit_kind : EscrowKind → Bool
is_misfit_kind misfit = true
is_misfit_kind ooo = false
is_misfit_kind partial_sigs = false
is_misfit_kind partial_wigs = false
is_misfit_kind partial_dels = false
is_misfit_kind delegables = false
is_misfit_kind duplicitous = false
is_misfit_kind query_not_found = false

-- The position in the source's list of kinds, by which two are compared.
abbrev pub kind_number : EscrowKind → ℕ
kind_number ooo = 0
kind_number partial_sigs = 1
kind_number partial_wigs = 2
kind_number partial_dels = 3
kind_number delegables = 4
kind_number duplicitous = 5
kind_number misfit = 6
kind_number query_not_found = 7

-- `a === b`
unfoldable pub same_kind : EscrowKind → EscrowKind → Bool
same_kind a b = kind_number a == kind_number b

unfoldable pub stored_envelope : EscrowKind → DgKey → Serder → Bool → Baser → KeverEventEnvelope
unfolding get_set
stored_envelope kind key serder promoted db = record {
  serder = serder;
  sigers = get_set key db.sigs;
  wigers = get_set key db.wigs;
  frcs = [];
  sscs = elim (or_maybe (lookup key db.udes) (lookup key db.aess)) [
    | none ↦ []
    | some seal ↦ seal ∷ []
  ];
  ssts = [];
  local = some (promoted || or_else (lookup key db.esrs) false);
  eager = searches_eagerly kind;
}

unfoldable pub promoted_misfit : Primitives → EscrowKind → Serder → Baser → Step Bool
unfolding promotable_misfit
promoted_misfit prim kind serder db =
    if is_misfit_kind kind then promotable_misfit prim serder db else ok (false, db)

unfoldable pub repair_for : Primitives → EscrowKind → Serder → Baser → Step (Unit {0})
unfolding repair_escrow_seal
repair_for prim kind serder db =
    if awaits_delegation kind then repair_escrow_seal prim serder db else ok (tt, db)

unfoldable pub rehydrate_stored :
    Primitives
    → EscrowKind
    → String
    → String
    → Baser
    → Option Serder
    → Step (Option KeverEventEnvelope)
unfolding repair_for promoted_misfit stored_envelope
rehydrate_stored prim kind pre said db none = ok (none, db)
rehydrate_stored prim kind pre said db (some serder) =
    repair_for prim kind serder db >>= λ repaired.
    promoted_misfit prim kind serder repaired.1 >>= λ promoted.
    ok (some (stored_envelope kind (pre, said) serder promoted.0 promoted.1), promoted.1)

-- `rehydrateEscrowEnvelope`
unfoldable pub rehydrate_escrow_envelope :
    Primitives → EscrowKind → String → String → Baser → Step (Option KeverEventEnvelope)
unfolding get_evt_serder rehydrate_stored
rehydrate_escrow_envelope prim kind pre said db =
    rehydrate_stored prim kind pre said db (get_evt_serder db pre said)

unfoldable pub conclude_replay :
    Primitives
    → EscrowKind
    → String
    → Option ℕ
    → String
    → KeverDecision
    → Baser
    → Step (Option Pushed)
unfolding remove_escrow apply_decision same_kind
conclude_replay prim kind pre on said (kever_accept transition cues) db =
    apply_decision prim (kever_accept transition cues) (remove_escrow kind pre on said db) >>= λ r.
    ok (some r.0, r.1)
conclude_replay prim kind pre on said (kever_duplicate d log) db =
    apply_decision prim (kever_duplicate d log) (remove_escrow kind pre on said db) >>= λ r.
    ok (some r.0, r.1)
conclude_replay prim kind pre on said (kever_reject code) db =
    ok (none, remove_escrow kind pre on said db)
conclude_replay prim kind pre on said (kever_escrow reason instruction cues) db =
    if same_kind reason kind
    then ok (none, db)
    else (apply_decision prim (kever_escrow reason instruction cues)
          (remove_escrow kind pre on said db)
        >>= λ r. ok (some r.0, r.1))

unfoldable pub replay_rehydrated :
    Primitives
    → Bool
    → EscrowKind
    → String
    → Option ℕ
    → String
    → Option KeverEventEnvelope × Baser
    → Step (Option Pushed)
unfolding remove_escrow decide_event conclude_replay
replay_rehydrated prim local kind pre on said (none, db) =
    ok (none, remove_escrow kind pre on said db)
replay_rehydrated prim local kind pre on said (some envelope, db) =
    decide_event prim local envelope db >>= λ decided.
    conclude_replay prim kind pre on said decided.0 decided.1

unfoldable pub replay_escrow_entry :
    Primitives → Bool → EscrowKind → String → Option ℕ → String → Baser → Step (Option Pushed)
unfolding rehydrate_escrow_envelope replay_rehydrated
replay_escrow_entry prim local kind pre on said db =
    rehydrate_escrow_envelope prim kind pre said db >>= λ r.
    replay_rehydrated prim local kind pre on said r

-- What one pass pushes, entry by entry.
abbrev pub push_some : Option Pushed → List Pushed → List Pushed
push_some none rest = rest
push_some (some p) rest = p ∷ rest

unfoldable pub replay_items :
    Primitives → Bool → EscrowKind → List KelItem → Baser → Step (List Pushed)
unfolding replay_escrow_entry
replay_items prim local kind [] db = ok ([], db)
replay_items prim local kind (item ∷ items) db =
    if not (truthy (some item.pre))
    then replay_items prim local kind items db
    else (replay_escrow_entry prim local kind item.pre (some item.sn) item.said db >>= λ r.
        replay_items prim local kind items r.1 >>= λ rest. ok (push_some r.0 rest.0, rest.1))

unfoldable pub replay_set_items :
    Primitives → Bool → EscrowKind → List SetItem → Baser → Step (List Pushed)
unfolding replay_escrow_entry
replay_set_items prim local kind [] db = ok ([], db)
replay_set_items prim local kind (item ∷ items) db =
    if not (truthy (some item.0))
    then replay_set_items prim local kind items db
    else (replay_escrow_entry prim local kind item.0 none item.1 db >>= λ r.
        replay_set_items prim local kind items r.1 >>= λ rest. ok (push_some r.0 rest.0, rest.1))

abbrev pub ordinal_bucket : EscrowKind → Baser → List KelItem
ordinal_bucket ooo db = db.ooes
ordinal_bucket partial_sigs db = db.pses
ordinal_bucket partial_wigs db = db.pwes
ordinal_bucket partial_dels db = db.pdes
ordinal_bucket duplicitous db = db.ldes
ordinal_bucket delegables db = []
ordinal_bucket misfit db = []
ordinal_bucket query_not_found db = []

abbrev pub set_bucket : EscrowKind → Baser → List SetItem
set_bucket delegables db = db.delegables
set_bucket misfit db = db.misfits
set_bucket query_not_found db = db.qnfs
set_bucket ooo db = []
set_bucket partial_sigs db = []
set_bucket partial_wigs db = []
set_bucket partial_dels db = []
set_bucket duplicitous db = []

-- One pass: the entries are read before the first is replayed.
unfoldable pub process_ordinal_escrow : Primitives → Bool → EscrowKind → Baser → Step (List Pushed)
unfolding replay_items top_items
process_ordinal_escrow prim local kind db =
    replay_items prim local kind (top_items (ordinal_bucket kind db)) db

unfoldable pub process_set_escrow : Primitives → Bool → EscrowKind → Baser → Step (List Pushed)
unfolding replay_set_items top_set_items
process_set_escrow prim local kind db =
    replay_set_items prim local kind (top_set_items (set_bucket kind db)) db
