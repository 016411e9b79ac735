-- ===== src/Kevery/Rehydrated.antt =====
-- The reading of an escrowed event changes no table but the stored source seals, and the cache.
use keri_ts.Prelude.{
  refl, not, ◌||◌, Option, none, some, String, inl, inr, Option-cases, equals, non_empty, is_some,
}
use keri_ts.Prelude.Sets.{string_eq}
use keri_ts.Prelude.Maps.{dg_key_eq, lookup}
use keri_ts.Prelude.Result.{ok, ◌>>=◌}
use keri_ts.Event.{Serder}
use keri_ts.Event.Decision.{EscrowKind}
use keri_ts.Kever.{Primitives, Kever, Baser}
use keri_ts.Kever.Store.{Step, get_evt_serder}
use keri_ts.Kever.Store.Quiet.{
  IsQuiet, IsQuiet-refl, Quiet, ok-Quiet, moved-Quiet, if-Quiet, option-Quiet, then-Quiet,
}
use keri_ts.Kever.Quiet.{get_kever-Quiet}
use keri_ts.Kever.Seals.{state_delegator}
use keri_ts.Kevery.{KeverEventEnvelope, decide_event}
use keri_ts.Kevery.Quiet.{fetch_last-Quiet}
use keri_ts.Kevery.Repair.{
  escrow_delegator, pin_found_seal, find_escrow_seal, is_delegated_ilk, repair_escrow_seal,
  promotable_misfit,
}
use keri_ts.Kevery.Replay.{
  awaits_delegation, is_misfit_kind, promoted_misfit, repair_for, rehydrate_stored,
  rehydrate_escrow_envelope,
}

module _ (prim : Primitives) where
  delegator-Quiet :
      (serder : Serder) (pre : String) (db : Baser) → Quiet db (escrow_delegator prim serder pre db)
  unfolding escrow_delegator
  delegator-Quiet serder pre db =
      if-Quiet db (equals serder.ilk "dip") _ _ (ok-Quiet db _)
        (stored (state_delegator (lookup pre db.states)))
    where
      stored :
          (o : Option String)
          → Quiet db (elim o [
            | some delpre ↦ ok (some delpre, db)
            | none ↦ keri_ts.Kever.Store.get_kever prim db pre >>= λ existing.
                ok (non_empty (keri_ts.Kevery.Repair.kever_delegator existing.0), existing.1)
          ])
      stored (some delpre) = ok-Quiet db _
      stored none =
          then-Quiet db _ _ (get_kever-Quiet prim db pre) λ existing. ok-Quiet existing.1 _

  found-IsQuiet :
      (pre said : String) (found : Option Serder) (db : Baser)
      → IsQuiet db (pin_found_seal pre said found db)
  unfolding pin_found_seal
  found-IsQuiet pre said none db = IsQuiet-refl db
  found-IsQuiet pre said (some anchoring) db = elim (Option-cases anchoring.sn) [
    | inl no_sn ↦ rw no_sn (IsQuiet-refl db)
    | inr (sn, there) ↦ elim (Option-cases (non_empty anchoring.said)) [
      | inl no_said ↦ rw there (rw no_said (IsQuiet-refl db))
      | inr (dig, named) ↦
          rw there (rw named (record { seals = _; cache = db.kevers; same = refl }))
    ]
  ]

  find-Quiet :
      (serder : Serder) (pre said : String) (delpre : Option String) (db : Baser)
      → Quiet db (find_escrow_seal prim serder pre said delpre db)
  unfolding find_escrow_seal
  find-Quiet serder pre said none db = ok-Quiet db _
  find-Quiet serder pre said (some delpre) db = option-Quiet db serder.sn _ _ (ok-Quiet db _) λ sn.
      then-Quiet db _ _ (fetch_last-Quiet prim delpre pre sn said db)
        λ r. moved-Quiet r.1 tt (pin_found_seal pre said r.0 r.1) (found-IsQuiet pre said r.0 r.1)

  repair_escrow-Quiet :
      (serder : Serder) (db : Baser) → Quiet db (repair_escrow_seal prim serder db)
  unfolding repair_escrow_seal
  repair_escrow-Quiet serder db = option-Quiet db (non_empty serder.pre) _ _ (ok-Quiet db _) λ pre.
      option-Quiet db (non_empty serder.said) _ _ (ok-Quiet db _) λ said.
        if-Quiet db (not (is_delegated_ilk serder.ilk) || is_some (lookup (pre, said) db.aess)) _ _
          (ok-Quiet db _)
          (then-Quiet db _ _ (delegator-Quiet serder pre db)
            λ delpre. find-Quiet serder pre said delpre.0 delpre.1)

  promotable-Quiet : (serder : Serder) (db : Baser) → Quiet db (promotable_misfit prim serder db)
  unfolding promotable_misfit
  promotable-Quiet serder db = option-Quiet db (non_empty serder.pre) _ _ (ok-Quiet db _) λ pre.
      if-Quiet db (not (is_delegated_ilk serder.ilk)) _ _ (ok-Quiet db _)
        (then-Quiet db _ _ (delegator-Quiet serder pre db) λ delpre. ok-Quiet delpre.1 _)

  stored-Quiet :
      (kind : EscrowKind) (pre said : String) (db : Baser) (serder : Option Serder)
      → Quiet db (rehydrate_stored prim kind pre said db serder)
  unfolding rehydrate_stored repair_for promoted_misfit
  stored-Quiet kind pre said db none = ok-Quiet db _
  stored-Quiet kind pre said db (some serder) =
      then-Quiet db (repair_for prim kind serder db) _
        (if-Quiet db (awaits_delegation kind) _ _ (repair_escrow-Quiet serder db) (ok-Quiet db _))
        λ repaired.
          then-Quiet repaired.1 (promoted_misfit prim kind serder repaired.1) _
            (if-Quiet repaired.1 (is_misfit_kind kind) _ _ (promotable-Quiet serder repaired.1)
              (ok-Quiet repaired.1 _))
            λ promoted. ok-Quiet promoted.1 _

  pub rehydrate-Quiet :
      (kind : EscrowKind) (pre said : String) (db : Baser)
      → Quiet db (rehydrate_escrow_envelope prim kind pre said db)
  unfolding rehydrate_escrow_envelope
  rehydrate-Quiet kind pre said db = stored-Quiet kind pre said db (get_evt_serder db pre said)
