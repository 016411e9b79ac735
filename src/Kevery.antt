-- ===== src/Kevery.antt =====
-- packages/keri/src/core/eventing.ts: `Kevery`, which decides what becomes of an event, and applies
-- the decision to the tables. A method returns the cues that it pushes, in order.
-- `decideEvent` is here; the child modules model the duplicates, the application of a decision, the
-- escrows and their replay, and prove what they do.
pub mod Duplicate
pub mod Repair
pub mod Escrow
pub mod Apply
pub mod Replay
pub mod Quiet
pub mod Applied
pub mod FirstSeen
pub mod Durable
pub mod Replayed
pub mod Rehydrated
pub mod Buckets
pub mod Released
mod Tests
pub mod About
use keri_ts.Prelude.{
  ℕ, ◌+◌, Bool, false, not, ◌&&◌, ◌||◌, Option, none, some, List, [], String, str_eq, ltb, leb,
  ◌==◌, if◌then◌else◌, is_some, or_else, equals, non_empty, first,
}
use keri_ts.Prelude.Sets.{string_eq}
use keri_ts.Prelude.Maps.{lookup}
use keri_ts.Prelude.Result.{Result, ok}
use keri_ts.Event.{Serder, Siger, SourceSeal, FirstSeenReplayCouple, KeverEventInit}
use keri_ts.Event.Decision.{
  EscrowKind, ooo, duplicitous, invalid_pre, invalid_ilk, invalid_sn, KeverDecision, kever_escrow,
  kever_reject,
}
use keri_ts.Kever.{Primitives, Thrown, Kever, Baser}
use keri_ts.Kever.Store.{Step, get_last}
use keri_ts.Kever.Inputs.{normalize_source_seal}
use keri_ts.Kever.Inception.{evaluate_inception}
use keri_ts.Kever.Rotation.{kever_said}
use keri_ts.Kever.Update.{evaluate_update}
use keri_ts.Kevery.Duplicate.{build_duplicate_decision}

-- `KeverEventEnvelope`
pub record KeverEventEnvelope : Type 0 where
  pub serder : Serder
  pub sigers : List Siger
  pub wigers : List Siger
  pub frcs : List FirstSeenReplayCouple
  pub sscs : List SourceSeal
  pub ssts : List SourceSeal
  pub local : Option Bool
  pub eager : Bool

abbrev pub make_kever_event_init : KeverEventEnvelope → Bool → KeverEventInit
make_kever_event_init envelope local = record {
  serder = envelope.serder;
  sigers = envelope.sigers;
  wigers = envelope.wigers;
  frcs = envelope.frcs;
  sscs = envelope.sscs;
  ssts = envelope.ssts;
  eager = envelope.eager;
  local = local;
  check = false;
}

-- `makeEscrowDecision`
unfoldable pub make_event_escrow : EscrowKind → KeverEventInit → KeverDecision
unfolding normalize_source_seal
make_event_escrow escrow init =
    kever_escrow escrow
      (record {
        escrow = escrow;
        pre = or_else init.serder.pre "";
        said = or_else init.serder.said "";
        sn = init.serder.sn;
        log = record {
          serder = init.serder;
          sigers = init.sigers;
          wigers = init.wigers;
          wits = none;
          first = false;
          frc = first init.frcs;
          source_seal = normalize_source_seal init.sscs init.ssts;
          local = init.local;
        };
      })
      []

abbrev pub is_inception : String → Bool
is_inception ilk = str_eq ilk "icp" || str_eq ilk "dip"

-- An inception of a known prefix.
unfoldable pub decide_reinception :
    Primitives → Kever → KeverEventInit → String → ℕ → Baser → Step KeverDecision
unfolding build_duplicate_decision make_event_escrow
decide_reinception prim k init said sn db =
    if not (sn == 0)
    then ok (kever_reject invalid_sn, db)
    else if str_eq (kever_said k) said
    then build_duplicate_decision prim k init db
    else ok (make_event_escrow duplicitous init, db)

-- Another event of a known prefix.
unfoldable pub decide_update :
    Primitives → Kever → KeverEventInit → String → String → ℕ → Baser → Step KeverDecision
unfolding build_duplicate_decision make_event_escrow evaluate_update
decide_update prim k init pre said sn db =
    if equals (non_empty (get_last db.kels pre sn)) said && leb sn k.sn
    then build_duplicate_decision prim k init db
    else if ltb (k.sn + 1) sn
    then ok (make_event_escrow ooo init, db)
    else evaluate_update prim k init db

unfoldable pub decide_by_kever :
    Primitives
    → KeverEventInit
    → String
    → String
    → String
    → ℕ
    → Baser
    → Option Kever
    → Step KeverDecision
unfolding decide_reinception decide_update make_event_escrow evaluate_inception
decide_by_kever prim init pre ilk said sn db none =
    if is_inception ilk
    then evaluate_inception prim init db
    else ok (make_event_escrow ooo init, db)
decide_by_kever prim init pre ilk said sn db (some k) =
    if is_inception ilk
    then decide_reinception prim k init said sn db
    else decide_update prim k init pre said sn db

-- The parts of an event that must be there.
pub record EventParts : Type 0 where
  pub pre : String
  pub ilk : String
  pub said : String
  pub sn : ℕ

-- `none` for an event without one of them.
unfoldable pub event_parts : Serder → Option EventParts
event_parts serder = elim (non_empty serder.pre) [
  | none ↦ none
  | some pre ↦ elim (non_empty serder.ilk) [
    | none ↦ none
    | some ilk ↦ elim (non_empty serder.said) [
      | none ↦ none
      | some said ↦ elim serder.sn [
        | none ↦ none
        | some sn ↦ some (record { pre = pre; ilk = ilk; said = said; sn = sn })
      ]
    ]
  ]
]

abbrev pub missing_part : Serder → KeverDecision
missing_part serder =
    if not (is_some (non_empty serder.pre))
    then kever_reject invalid_pre
    else if not (is_some (non_empty serder.ilk))
    then kever_reject invalid_ilk
    else kever_reject invalid_sn

unfoldable pub decide_parts :
    Primitives → KeverEventInit → Baser → Option EventParts → Step KeverDecision
unfolding decide_by_kever
decide_parts prim init db none = ok (missing_part init.serder, db)
decide_parts prim init db (some parts) =
    if not (prim.is_prefix parts.pre)
    then ok (kever_reject invalid_pre, db)
    else decide_by_kever prim init parts.pre parts.ilk parts.said parts.sn db
        (lookup parts.pre db.kevers)

-- `decideEvent`, of a `Kevery` whose own `local` is given.
unfoldable pub decide_event : Primitives → Bool → KeverEventEnvelope → Baser → Step KeverDecision
unfolding decide_parts event_parts
decide_event prim local envelope db =
    decide_parts prim (make_kever_event_init envelope (or_else envelope.local local)) db
      (event_parts envelope.serder)
