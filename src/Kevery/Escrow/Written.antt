-- ===== src/Kevery/Escrow/Written.antt =====
-- What `persistEscrowInstruction` has written when it returns.
use keri_ts.Prelude.{
  ℕ, ◌≡◌, ◌∙◌, ap, none, some, or_else, non_empty, every, Bool-cases, Option-cases, inl, inr, arith,
  [],
}
use keri_ts.Prelude.Maps.{DgKey}
use keri_ts.Prelude.Result.{ok, err, >>=-cases}
use keri_ts.Event.Decision.{KelEventState, EscrowInstruction}
use keri_ts.Kever.{Primitives, Baser, incomplete_escrow}
use keri_ts.Kever.Store.{Step}
use keri_ts.Kevery.Escrow.{
  escrow_material, persist_escrow_event_material, enter_bucket, persist_escrow_instruction,
}

persist_material-eq :
    (prim : Primitives) (log : KelEventState) (db : Baser) (m : Unit {0} × Baser)
    → persist_escrow_event_material prim log db ≡ ok m
    → (key : DgKey) × (escrow_material prim key log db ≡ m.1)
unfolding persist_escrow_event_material
persist_material-eq prim log db m h = elim (Option-cases (non_empty log.serder.pre)) [
  | inl no_pre ↦ absurd (ground (arith, no_pre, h))
  | inr (pre, has_pre) ↦ elim (Option-cases (non_empty log.serder.said)) [
    | inl no_said ↦ absurd (ground (arith, has_pre, no_said, h))
    | inr (said, has_said) ↦ elim (Bool-cases (every prim.is_prefix (or_else log.wits []))) [
      | inr bad_wit ↦ absurd (ground (arith, has_pre, has_said, bad_wit, h))
      | inl wits ↦
          let done : ◌≡◌ {A = Step (Unit {0})} (ok (tt, escrow_material prim (pre, said) log db))
              (ok m) =
            ground (arith, has_pre, has_said, wits, h) in
          ((pre, said), cc done)
    ]
  ]
]

entered-eq :
    (instruction : EscrowInstruction) (m : Baser) (r : Unit {0} × Baser)
    → (elim instruction.sn [
      | none ↦ err incomplete_escrow
      | some sn ↦ ok (tt, enter_bucket instruction.escrow instruction.pre sn instruction.said m)
    ])
      ≡ ok r
    → (sn : ℕ) × (instruction.sn ≡ some sn)
      × (enter_bucket instruction.escrow instruction.pre sn instruction.said m ≡ r.1)
entered-eq instruction m r h = elim (Option-cases instruction.sn) [
  | inl no_sn ↦ absurd (ground (arith, no_sn, h))
  | inr (sn, there) ↦
      let done : ok (tt, enter_bucket instruction.escrow instruction.pre sn instruction.said m)
          ≡ ok r =
        rw there at h in
      (sn, there, cc done)
]

-- The material of the event, and then its entry in the bucket.
pub persisted-written :
    (prim : Primitives) (instruction : EscrowInstruction) (db : Baser) (r : Unit {0} × Baser)
    → persist_escrow_instruction prim instruction db ≡ ok r
    → (key : DgKey) × (sn : ℕ) × (instruction.sn ≡ some sn)
      × (enter_bucket instruction.escrow instruction.pre sn instruction.said
            (escrow_material prim key instruction.log db)
          ≡ r.1)
unfolding persist_escrow_instruction
persisted-written prim instruction db r h =
    >>=-cases (persist_escrow_event_material prim instruction.log db) _ h λ m em h1.
      let (key, same) = persist_material-eq prim instruction.log db m em in
      let (sn, there, done) = entered-eq instruction m.1 r h1 in
      (
        key,
        sn,
        there,
        ap (enter_bucket instruction.escrow instruction.pre sn instruction.said) same ∙ done,
      )
