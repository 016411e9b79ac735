-- ===== src/Kevery/Repair.antt =====
-- packages/keri/src/core/eventing.ts: the repairs of the stored source seals, after a delegating event
-- is accepted (`repairAnchoredDelegationSourceSeals`) and before an escrowed delegated event is
-- replayed (`repairEscrowDelegationSourceSeal`); and who may promote a misfit.
use keri_ts.Prelude.{
  Bool, false, not, ◌&&◌, ◌||◌, Option, none, some, List, [], ◌∷◌, String, if◌then◌else◌, is_some,
  or_maybe, equals, non_empty, truthy,
}
use keri_ts.Prelude.Sets.{string_eq, has}
use keri_ts.Prelude.Maps.{dg_key_eq, lookup, pin}
use keri_ts.Prelude.Result.{ok, ◌>>=◌}
use keri_ts.Event.{Serder, SourceSeal}
use keri_ts.Kever.{Primitives, Kever, Baser}
use keri_ts.Kever.Store.{Step, get_evt_serder, get_kever}
use keri_ts.Kever.Seals.{state_delegator}
use keri_ts.Kevery.Duplicate.{fetch_last_sealing_event}

abbrev pub kever_delegator : Option Kever → Option String
kever_delegator none = none
kever_delegator (some k) = k.delpre

-- `this.db.getState(pre)?.di`
abbrev pub state_di : Baser → String → Option String
state_di db pre = elim (lookup pre db.states) [ none ↦ none | some state ↦ state.di ]

-- One anchor, which names an event with the two texts.
unfoldable pub repair_anchor :
    Primitives → String → SourceSeal → String → String → Baser → Step (Unit {0})
unfolding get_evt_serder get_kever
repair_anchor prim delpre seal pre dig db =
    if not (truthy (some pre))
      || not (truthy (some dig))
      || not (is_some (get_evt_serder db pre dig))
    then ok (tt, db)
    else (get_kever prim db pre >>= λ existing. ok (
      tt,
      if equals (or_maybe (kever_delegator existing.0) (state_di existing.1 pre)) delpre
            && not (is_some (lookup (pre, dig) existing.1.aess))
          then record existing.1 { aess = pin (pre, dig) seal existing.1.aess }
          else existing.1,
    ))

unfoldable pub repair_anchors :
    Primitives → String → SourceSeal → List (String × String) → Baser → Step (Unit {0})
unfolding repair_anchor
repair_anchors prim delpre seal [] db = ok (tt, db)
repair_anchors prim delpre seal (anchor ∷ anchors) db =
    repair_anchor prim delpre seal anchor.0 anchor.1 db >>= λ r.
    repair_anchors prim delpre seal anchors r.1

-- `repairAnchoredDelegationSourceSeals`
unfoldable pub repair_anchored_seals : Primitives → Serder → Baser → Step (Unit {0})
unfolding repair_anchors
repair_anchored_seals prim serder db = elim (non_empty serder.pre) [
  | none ↦ ok (tt, db)
  | some delpre ↦ elim (non_empty serder.said) [
    | none ↦ ok (tt, db)
    | some said ↦ elim serder.sn [
      | none ↦ ok (tt, db)
      | some sn ↦ repair_anchors prim delpre (record { s = sn; d = said }) serder.anchors db
    ]
  ]
]

-- The delegator of an escrowed event: of a later one, the stored state's, or else the live state's.
unfoldable pub escrow_delegator : Primitives → Serder → String → Baser → Step (Option String)
unfolding get_kever state_delegator
escrow_delegator prim serder pre db =
    if equals serder.ilk "dip"
    then ok (non_empty serder.delpre, db)
    else elim (state_delegator (lookup pre db.states)) [
      | some delpre ↦ ok (some delpre, db)
      | none ↦ get_kever prim db pre >>= λ existing.
          ok (non_empty (kever_delegator existing.0), existing.1)
    ]

unfoldable pub pin_found_seal : String → String → Option Serder → Baser → Baser
pin_found_seal pre said none db = db
pin_found_seal pre said (some anchoring) db = elim anchoring.sn [
  | none ↦ db
  | some sn ↦ elim (non_empty anchoring.said) [
    | none ↦ db
    | some dig ↦ record db { aess = pin (pre, said) (record { s = sn; d = dig }) db.aess }
  ]
]

unfoldable pub find_escrow_seal :
    Primitives → Serder → String → String → Option String → Baser → Step (Unit {0})
unfolding fetch_last_sealing_event pin_found_seal
find_escrow_seal prim serder pre said none db = ok (tt, db)
find_escrow_seal prim serder pre said (some delpre) db = elim serder.sn [
  | none ↦ ok (tt, db)
  | some sn ↦ fetch_last_sealing_event prim delpre pre sn said db >>= λ r.
      ok (tt, pin_found_seal pre said r.0 r.1)
]

abbrev pub is_delegated_ilk : Option String → Bool
is_delegated_ilk ilk = equals ilk "dip" || equals ilk "drt"

-- `repairEscrowDelegationSourceSeal`
unfoldable pub repair_escrow_seal : Primitives → Serder → Baser → Step (Unit {0})
unfolding escrow_delegator find_escrow_seal
repair_escrow_seal prim serder db = elim (non_empty serder.pre) [
  | none ↦ ok (tt, db)
  | some pre ↦ elim (non_empty serder.said) [
    | none ↦ ok (tt, db)
    | some said ↦
        if not (is_delegated_ilk serder.ilk) || is_some (lookup (pre, said) db.aess)
        then ok (tt, db)
        else (escrow_delegator prim serder pre db >>= λ delpre.
            find_escrow_seal prim serder pre said delpre.0 delpre.1)
  ]
]

-- `promotableDelegationMisfit`: the delegator is local, and the delegate is not.
unfoldable pub promotable_misfit : Primitives → Serder → Baser → Step Bool
unfolding escrow_delegator
promotable_misfit prim serder db = elim (non_empty serder.pre) [
  | none ↦ ok (false, db)
  | some pre ↦
      if not (is_delegated_ilk serder.ilk)
      then ok (false, db)
      else (escrow_delegator prim serder pre db >>= λ delpre. ok (
        elim delpre.0 [
          | none ↦ false
          | some delegator ↦ has delegator delpre.1.prefixes && not (has pre delpre.1.prefixes)
        ],
        delpre.1,
      ))
]
