-- ===== src/Kever/Log/Written.antt =====
-- What `logEvent` has written when it returns.
use keri_ts.Prelude.{
  ℕ, ◌≡◌, refl, sym, ◌∙◌, ap, not, ◌&&◌, some, String, every, or_else, equals, non_empty,
  Bool-cases, Option-cases, inl, inr, arith,
}
use keri_ts.Prelude.Maps.{Map, DgKey, dg_key_eq, pin}
use keri_ts.Prelude.Result.{ok, ok-injective}
use keri_ts.Event.{SourceSeal}
use keri_ts.Event.Decision.{KelEventState}
use keri_ts.Kever.{Primitives, Thrown, Kever, Baser}
use keri_ts.Kever.Log.{
  LoggedEvent, log_date, log_material, log_seal, log_first, log_place, log_complete, log_event, [],
}

-- The tables after the attachments and the source seal are written.
abbrev pub with_material : Primitives → DgKey → KelEventState → Map DgKey SourceSeal → Baser → Baser
with_material prim key log seals db = record (log_material (log_date prim log.frc) key log db) {
  aess = seals;
}

-- The event has a prefix, a digest and a number, and is written under them.
pub record IsLogged (prim : Primitives) (log : KelEventState) (db : Baser) (logged : LoggedEvent)
    (db' : Baser) : Type 0 where
  pub pre : String
  pub said : String
  pub sn : ℕ
  pub has_pre : non_empty log.serder.pre ≡ some pre
  pub has_said : non_empty log.serder.said ≡ some said
  pub has_sn : log.serder.sn ≡ some sn
  pub seals : Map DgKey SourceSeal
  pub written :
      log_place pre sn said (
        log_first
          (log_date prim log.frc)
          pre
          (pre, said)
          log
          (with_material prim (pre, said) log seals db))
      ≡ (logged, db')

seal-same :
    (k : Kever) (key : DgKey) (log : KelEventState) (db : Baser)
    → (seals : Map DgKey SourceSeal) × (log_seal k key log db ≡ record db { aess = seals })
unfolding log_seal
seal-same k key log db = elim (Option-cases log.source_seal) [
  | inl none_there ↦ (db.aess, rw none_there refl)
  | inr (seal, there) ↦ elim (Bool-cases (k.delegated && not (equals log.serder.ilk "ixn"))) [
    | inl delegated ↦ (pin key seal db.aess, rw there (rw delegated refl))
    | inr other ↦ (db.aess, rw there (rw other refl))
  ]
]

pub log_event-IsLogged :
    (prim : Primitives) (k : Kever) (log : KelEventState) (db db' : Baser) (logged : LoggedEvent)
    → log_event prim k log db ≡ ok (logged, db')
    → IsLogged prim log db logged db'
unfolding log_event log_complete
log_event-IsLogged prim k log db db' logged h = elim (Option-cases (non_empty log.serder.pre)) [
  | inl no_pre ↦ absurd (ground (arith, no_pre, h))
  | inr (pre, has_pre) ↦ elim (Option-cases (non_empty log.serder.said)) [
    | inl no_said ↦ absurd (ground (arith, has_pre, no_said, h))
    | inr (said, has_said) ↦ elim (Option-cases log.serder.sn) [
      | inl no_sn ↦ absurd (ground (arith, has_pre, has_said, no_sn, h))
      | inr (sn, has_sn) ↦ elim (Bool-cases (every prim.is_prefix (or_else log.wits []))) [
        | inr bad_wit ↦ absurd (ground (arith, has_pre, has_said, has_sn, bad_wit, h))
        | inl wits ↦
            let (seals, same) =
              seal-same k (pre, said) log
                (log_material (log_date prim log.frc) (pre, said) log db) in
            record {
              pre = pre;
              said = said;
              sn = sn;
              has_pre = has_pre;
              has_said = has_said;
              has_sn = has_sn;
              seals = seals;
              written =
                  ap
                    (λ (x : Baser).
                      log_place pre sn said
                        (log_first (log_date prim log.frc) pre (pre, said) log x))
                    (sym same)
                  ∙ ok-injective {E = Thrown} {a = log_complete prim k log db pre said sn}
                      {b = (logged, db')} (ground (arith, has_pre, has_said, has_sn, wits, h));
            }
      ]
    ]
  ]
]
