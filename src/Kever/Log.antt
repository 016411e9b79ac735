-- ===== src/Kever/Log.antt =====
-- packages/keri/src/core/kever.ts: `logEvent`, which writes an event and its attachments to the
-- tables, and gives a first-seen event its ordinal.
pub mod Written
use keri_ts.Prelude.{
  ℕ, Bool, true, not, ◌&&◌, Option, none, some, List, [], ◌∷◌, map, String, ◌==◌, if◌then◌else◌,
  every, or_else, equals, non_empty,
}
use keri_ts.Prelude.Sets.{string_eq, add}
use keri_ts.Prelude.Maps.{Map, DgKey, dg_key_eq, lookup, pin}
use keri_ts.Prelude.Result.{Result, ok, err}
use keri_ts.Tables.{put, put_set, kel_item_eq, add_on, next_on, append_on}
use keri_ts.Event.{Siger, siger_eq, unverified, FirstSeenReplayCouple}
use keri_ts.Event.Decision.{AgentCue, notice_bad_clone_fn, KelEventState}
use keri_ts.Kever.{
  Primitives, Thrown, incomplete_log, invalid_prefix, Kever, Baser, encode_huge_ordinal,
}
use keri_ts.Kever.Store.{Step}

-- What `logEvent` returns, and the cues that it pushes on the deck of the kever.
pub record LoggedEvent : Type 0 where
  pub fn : Option ℕ
  pub dater : String
  pub notices : List AgentCue

-- `args.frc?.dater ?? now`
abbrev pub log_date : Primitives → Option FirstSeenReplayCouple → String
log_date prim none = prim.now
log_date prim (some frc) = frc.dater

-- The source of a stored event is local once it was logged as local.
unfoldable pub mark_source : DgKey → Bool → Map DgKey Bool → Map DgKey Bool
mark_source key local sources = elim (lookup key sources) [
  | none ↦ pin key local sources
  | some was ↦ if local && not was then pin key true sources else sources
]

-- The event and its attachments, which are written whether or not it is first-seen.
unfoldable pub log_material : String → DgKey → KelEventState → Baser → Baser
unfolding put put_set mark_source
log_material dater key log db = record db {
  dtss = put key dater db.dtss;
  sigs = put_set key (map unverified log.sigers) db.sigs;
  wigs = put_set key (map unverified log.wigers) db.wigs;
  wits = put_set key (or_else log.wits []) db.wits;
  evts = put key log.serder db.evts;
  esrs = mark_source key log.local db.esrs;
}

-- Only of an accepted delegated establishment event.
unfoldable pub log_seal : Kever → DgKey → KelEventState → Baser → Baser
log_seal k key log db = elim log.source_seal [
  | none ↦ db
  | some seal ↦
      if k.delegated && not (equals log.serder.ilk "ixn")
      then record db { aess = pin key seal db.aess }
      else db
]

abbrev pub bad_clone : KelEventState → ℕ → List AgentCue
bad_clone log fn = elim log.frc [
  | none ↦ []
  | some frc ↦ if fn == frc.firner then [] else notice_bad_clone_fn log.serder fn frc ∷ []
]

unfoldable pub log_first : String → String → DgKey → KelEventState → Baser → LoggedEvent × Baser
log_first dater pre key log db =
    if log.first
    then (
      record {
        fn = some (next_on pre db.fels);
        dater = dater;
        notices = bad_clone log (next_on pre db.fels);
      },
      record db {
        fels = append_on pre key.1 db.fels;
        dtss = pin key dater db.dtss;
        fons = pin key (encode_huge_ordinal (next_on pre db.fels)) db.fons;
      },
    )
    else (record { fn = none; dater = dater; notices = [] }, db)

abbrev pub log_place : String → ℕ → String → LoggedEvent × Baser → LoggedEvent × Baser
log_place pre sn said (logged, db) = (logged, record db { kels = add_on pre sn said db.kels })

-- The prefix, the digest and the number are there.
unfoldable pub log_complete :
    Primitives → Kever → KelEventState → Baser → String → String → ℕ → LoggedEvent × Baser
unfolding log_material log_seal log_first
log_complete prim k log db pre said sn = log_place pre sn said (
    log_first (log_date prim log.frc) pre (pre, said) log
      (log_seal k (pre, said) log (log_material (log_date prim log.frc) (pre, said) log db)))

unfoldable pub log_event : Primitives → Kever → KelEventState → Baser → Step LoggedEvent
unfolding log_complete
log_event prim k log db = elim (non_empty log.serder.pre) [
  | none ↦ err incomplete_log
  | some pre ↦ elim (non_empty log.serder.said) [
    | none ↦ err incomplete_log
    | some said ↦ elim log.serder.sn [
      | none ↦ err incomplete_log
      | some sn ↦
          if every prim.is_prefix (or_else log.wits [])
          then ok (log_complete prim k log db pre said sn)
          else err invalid_prefix
    ]
  ]
]
