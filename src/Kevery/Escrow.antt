-- ===== src/Kevery/Escrow.antt =====
-- packages/keri/src/core/eventing.ts: `persistEscrowInstruction`, which stores an event that waits and
-- enters it in the bucket of its reason, `removeEscrow`, and the buckets themselves.
pub mod Written
use keri_ts.Prelude.{
  ℕ, Option, none, some, [], map, String, if◌then◌else◌, every, or_else, non_empty,
}
use keri_ts.Prelude.Sets.{string_eq, add}
use keri_ts.Prelude.Maps.{DgKey, dg_key_eq, pin}
use keri_ts.Prelude.Result.{ok, err, ◌>>=◌}
use keri_ts.Tables.{put, put_set, kel_item_eq, add_on, rem_on, rem_from}
use keri_ts.Event.{siger_eq, unverified, SourceSeal}
use keri_ts.Event.Decision.{
  EscrowKind, ooo, partial_sigs, partial_wigs, partial_dels, delegables, duplicitous, misfit,
  query_not_found, KelEventState, EscrowInstruction,
}
use keri_ts.Kever.{Primitives, incomplete_escrow, invalid_prefix, Baser}
use keri_ts.Kever.Store.{Step}
use keri_ts.Kever.Log.{log_date, mark_source}

abbrev pub escrow_seal : DgKey → Option SourceSeal → Baser → Baser
escrow_seal key none db = db
escrow_seal key (some seal) db = record db { udes = pin key seal db.udes }

unfoldable pub escrow_material : Primitives → DgKey → KelEventState → Baser → Baser
unfolding put put_set mark_source
escrow_material prim key log db = escrow_seal key log.source_seal (record db {
  dtss = put key (log_date prim log.frc) db.dtss;
  sigs = put_set key (map unverified log.sigers) db.sigs;
  wigs = put_set key (map unverified log.wigers) db.wigs;
  wits = put_set key (or_else log.wits []) db.wits;
  evts = put key log.serder db.evts;
  esrs = mark_source key log.local db.esrs;
})

-- `persistEscrowEventMaterial`
unfoldable pub persist_escrow_event_material : Primitives → KelEventState → Baser → Step (Unit {0})
unfolding escrow_material
persist_escrow_event_material prim log db = elim (non_empty log.serder.pre) [
  | none ↦ err incomplete_escrow
  | some pre ↦ elim (non_empty log.serder.said) [
    | none ↦ err incomplete_escrow
    | some said ↦
        if every prim.is_prefix (or_else log.wits [])
        then ok (tt, escrow_material prim (pre, said) log db)
        else err invalid_prefix
  ]
]

-- The bucket of a reason: those with an ordinal, and those without.
unfoldable pub enter_bucket : EscrowKind → String → ℕ → String → Baser → Baser
enter_bucket ooo pre sn said db = record db { ooes = add_on pre sn said db.ooes }
enter_bucket partial_sigs pre sn said db = record db { pses = add_on pre sn said db.pses }
enter_bucket partial_wigs pre sn said db = record db { pwes = add_on pre sn said db.pwes }
enter_bucket partial_dels pre sn said db = record db { pdes = add_on pre sn said db.pdes }
enter_bucket duplicitous pre sn said db = record db { ldes = add_on pre sn said db.ldes }
enter_bucket delegables pre sn said db = record db { delegables = add (pre, said) db.delegables }
enter_bucket misfit pre sn said db = record db { misfits = add (pre, said) db.misfits }
enter_bucket query_not_found pre sn said db = record db { qnfs = add (pre, said) db.qnfs }

-- An instruction without a number, which the source writes as -1, is one that no decision makes: it
-- is given no bucket here.
unfoldable pub persist_escrow_instruction : Primitives → EscrowInstruction → Baser → Step (Unit {0})
unfolding persist_escrow_event_material enter_bucket
persist_escrow_instruction prim instruction db =
    persist_escrow_event_material prim instruction.log db >>= λ r. elim instruction.sn [
      | none ↦ err incomplete_escrow
      | some sn ↦ ok (tt, enter_bucket instruction.escrow instruction.pre sn instruction.said r.1)
    ]

-- `removeEscrow`, where a missing ordinal counts as 0
unfoldable pub remove_escrow : EscrowKind → String → Option ℕ → String → Baser → Baser
remove_escrow ooo pre on said db = record db { ooes = rem_on pre (or_else on 0) said db.ooes }
remove_escrow partial_sigs pre on said db = record db {
  pses = rem_on pre (or_else on 0) said db.pses;
}
remove_escrow partial_wigs pre on said db = record db {
  pwes = rem_on pre (or_else on 0) said db.pwes;
}
remove_escrow partial_dels pre on said db = record db {
  pdes = rem_on pre (or_else on 0) said db.pdes;
}
remove_escrow duplicitous pre on said db = record db {
  ldes = rem_on pre (or_else on 0) said db.ldes;
}
remove_escrow delegables pre on said db = record db { delegables = rem_from pre said db.delegables }
remove_escrow misfit pre on said db = record db { misfits = rem_from pre said db.misfits }
remove_escrow query_not_found pre on said db = record db { qnfs = rem_from pre said db.qnfs }
