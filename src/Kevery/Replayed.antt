-- ===== src/Kevery/Replayed.antt =====
-- An escrowed event is read back as it was stored.
use mathlib.Core.Path.{subst}
use keri_ts.Prelude.{
  ℕ, ◌≡◌, refl, ◌∙◌, ap, inl, inr, Bool, false, Option, none, some, List, [], ◌∷◌, map, String,
  or_else, non_empty, every, Bool-cases, Option-cases, arith, or_maybe,
}
use keri_ts.Prelude.Sets.{Eq, string_eq, of_list}
use keri_ts.Prelude.Maps.{Map, DgKey, dg_key_eq, lookup, lookup-pin}
use keri_ts.Prelude.Result.{ok, ◌>>=◌, >>=-cases}
use keri_ts.Tables.{kel_item_eq, put, put_set, get_set}
use keri_ts.Event.{Serder, siger_eq, unverified, SourceSeal}
use keri_ts.Event.Decision.{
  EscrowKind, ooo, partial_sigs, partial_wigs, partial_dels, delegables, duplicitous, misfit,
  query_not_found, KelEventState, EscrowInstruction,
}
use keri_ts.Kever.{Primitives, Baser}
use keri_ts.Kever.Store.{Step, get_evt_serder}
use keri_ts.Kever.Log.{log_date, mark_source}
use keri_ts.Kevery.{KeverEventEnvelope}
use keri_ts.Kevery.Escrow.{
  persist_escrow_event_material, persist_escrow_instruction, enter_bucket, escrow_seal,
  escrow_material,
}
use keri_ts.Kevery.Replay.{
  awaits_delegation, is_misfit_kind, repair_for, promoted_misfit, stored_envelope, searches_eagerly,
  rehydrate_escrow_envelope, rehydrate_stored,
}

-- Nothing is stored under the key.
pub record IsNew (key : DgKey) (db : Baser) : Type 0 where
  pub evts : lookup key db.evts ≡ none
  pub sigs : lookup key db.sigs ≡ none
  pub wigs : lookup key db.wigs ≡ none
  pub udes : lookup key db.udes ≡ none
  pub aess : lookup key db.aess ≡ none
  pub esrs : lookup key db.esrs ≡ none

get-put_set :
    {A : Type 0} ⦃e : Eq A⦄ (key : DgKey) (vals : List A) (table : Map DgKey (List A))
    → lookup key table ≡ none
    → get_set key (put_set key vals table) ≡ of_list vals
unfolding get_set put_set of_list
get-put_set key [] table new = rw new refl
get-put_set key (v ∷ vals) table new = rw (lookup-pin key) (rw new refl)

-- What a replay reads.
record SameMaterial (db db' : Baser) : Type 0 where
  same_evts : db'.evts ≡ db.evts
  same_sigs : db'.sigs ≡ db.sigs
  same_wigs : db'.wigs ≡ db.wigs
  same_udes : db'.udes ≡ db.udes
  same_aess : db'.aess ≡ db.aess
  same_esrs : db'.esrs ≡ db.esrs

bucket-SameMaterial :
    (kind : EscrowKind) (pre : String) (sn : ℕ) (said : String) (db : Baser)
    → SameMaterial db (enter_bucket kind pre sn said db)
unfolding enter_bucket
bucket-SameMaterial ooo pre sn said db = record {
  same_evts = refl;
  same_sigs = refl;
  same_wigs = refl;
  same_udes = refl;
  same_aess = refl;
  same_esrs = refl;
}
bucket-SameMaterial partial_sigs pre sn said db = record {
  same_evts = refl;
  same_sigs = refl;
  same_wigs = refl;
  same_udes = refl;
  same_aess = refl;
  same_esrs = refl;
}
bucket-SameMaterial partial_wigs pre sn said db = record {
  same_evts = refl;
  same_sigs = refl;
  same_wigs = refl;
  same_udes = refl;
  same_aess = refl;
  same_esrs = refl;
}
bucket-SameMaterial partial_dels pre sn said db = record {
  same_evts = refl;
  same_sigs = refl;
  same_wigs = refl;
  same_udes = refl;
  same_aess = refl;
  same_esrs = refl;
}
bucket-SameMaterial duplicitous pre sn said db = record {
  same_evts = refl;
  same_sigs = refl;
  same_wigs = refl;
  same_udes = refl;
  same_aess = refl;
  same_esrs = refl;
}
bucket-SameMaterial delegables pre sn said db = record {
  same_evts = refl;
  same_sigs = refl;
  same_wigs = refl;
  same_udes = refl;
  same_aess = refl;
  same_esrs = refl;
}
bucket-SameMaterial misfit pre sn said db = record {
  same_evts = refl;
  same_sigs = refl;
  same_wigs = refl;
  same_udes = refl;
  same_aess = refl;
  same_esrs = refl;
}
bucket-SameMaterial query_not_found pre sn said db = record {
  same_evts = refl;
  same_sigs = refl;
  same_wigs = refl;
  same_udes = refl;
  same_aess = refl;
  same_esrs = refl;
}

-- The tables hold the material of an event under the key.
record HoldsMaterial (key : DgKey) (log : KelEventState) (db : Baser) : Type 0 where
  event : lookup key db.evts ≡ some log.serder
  sigers : get_set key db.sigs ≡ of_list (map unverified log.sigers)
  wigers : get_set key db.wigs ≡ of_list (map unverified log.wigers)
  seal : or_maybe (lookup key db.udes) (lookup key db.aess) ≡ log.source_seal
  source : lookup key db.esrs ≡ some log.local

sealed-same :
    (key : DgKey) (o : Option SourceSeal) (db : Baser)
    → ((escrow_seal key o db).evts ≡ db.evts)
      × ((escrow_seal key o db).sigs ≡ db.sigs)
      × ((escrow_seal key o db).wigs ≡ db.wigs)
      × ((escrow_seal key o db).esrs ≡ db.esrs)
sealed-same key none db = (refl, refl, refl, refl)
sealed-same key (some seal) db = (refl, refl, refl, refl)

sealed-read :
    (key : DgKey) (o : Option SourceSeal) (db : Baser)
    → lookup key db.udes ≡ none
    → lookup key db.aess ≡ none
    → or_maybe (lookup key (escrow_seal key o db).udes) (lookup key (escrow_seal key o db).aess) ≡ o
sealed-read key none db no_ude no_aes = rw no_ude no_aes
sealed-read key (some seal) db no_ude no_aes = rw (lookup-pin key seal db.udes) refl

lookup-put :
    (key : DgKey) (serder : Serder) (evts : Map DgKey Serder)
    → lookup key evts ≡ none
    → lookup key (put key serder evts) ≡ some serder
unfolding put
lookup-put key serder evts new = rw new (lookup-pin key serder evts)

lookup-mark :
    (key : DgKey) (local : Bool) (sources : Map DgKey Bool)
    → lookup key sources ≡ none
    → lookup key (mark_source key local sources) ≡ some local
unfolding mark_source lookup
lookup-mark key local sources new = rw (new, mark_source) (lookup-pin key local sources)

material-HoldsMaterial :
    (prim : Primitives) (key : DgKey) (log : KelEventState) (db : Baser)
    → IsNew key db
    → HoldsMaterial key log (escrow_material prim key log db)
unfolding escrow_material
material-HoldsMaterial prim key log db new =
    let base : Baser = record db {
      dtss = put key (log_date prim log.frc) db.dtss;
      sigs = put_set key (map unverified log.sigers) db.sigs;
      wigs = put_set key (map unverified log.wigers) db.wigs;
      wits = put_set key (or_else log.wits []) db.wits;
      evts = put key log.serder db.evts;
      esrs = mark_source key log.local db.esrs;
    } in
    let (evts, sigs, wigs, esrs) = sealed-same key log.source_seal base in
    record {
      event = ap (lookup key) evts ∙ lookup-put key log.serder db.evts new.evts;
      sigers = ap (get_set key) sigs ∙ get-put_set key (map unverified log.sigers) db.sigs new.sigs;
      wigers = ap (get_set key) wigs ∙ get-put_set key (map unverified log.wigers) db.wigs new.wigs;
      seal = sealed-read key log.source_seal base new.udes new.aess;
      source = ap (lookup key) esrs ∙ lookup-mark key log.local db.esrs new.esrs;
    }

bucket-HoldsMaterial :
    (key : DgKey) (log : KelEventState) (db db' : Baser)
    → SameMaterial db db'
    → HoldsMaterial key log db
    → HoldsMaterial key log db'
bucket-HoldsMaterial key log db db' same h = record {
  event = ap (lookup key) same.same_evts ∙ h.event;
  sigers = ap (get_set key) same.same_sigs ∙ h.sigers;
  wigers = ap (get_set key) same.same_wigs ∙ h.wigers;
  seal =
      ap (λ udes. or_maybe (lookup key udes) (lookup key db'.aess)) same.same_udes
      ∙ ap (λ aess. or_maybe (lookup key db.udes) (lookup key aess)) same.same_aess
      ∙ h.seal;
  source = ap (lookup key) same.same_esrs ∙ h.source;
}

abbrev seal_list : Option SourceSeal → List SourceSeal
seal_list none = []
seal_list (some seal) = seal ∷ []

-- The envelope that an escrowed event is read back as: its signatures, each once and without the
-- verifier it was checked against, its source seal, and where it came from.
abbrev pub envelope_of : EscrowKind → KelEventState → KeverEventEnvelope
envelope_of kind log = record {
  serder = log.serder;
  sigers = of_list (map unverified log.sigers);
  wigers = of_list (map unverified log.wigers);
  frcs = [];
  sscs = seal_list log.source_seal;
  ssts = [];
  local = some log.local;
  eager = searches_eagerly kind;
}

stored-envelope_of :
    (kind : EscrowKind) (key : DgKey) (log : KelEventState) (db : Baser)
    → HoldsMaterial key log db
    → stored_envelope kind key log.serder false db ≡ envelope_of kind log
unfolding stored_envelope
stored-envelope_of kind key log db h =
    cc (h.sigers, h.wigers, seals, ap (λ o. some (or_else o false)) h.source)
  where
    seals :
        (elim (or_maybe (lookup key db.udes) (lookup key db.aess)) [
          | none ↦ []
          | some seal ↦ seal ∷ []
        ])
        ≡ seal_list log.source_seal
    seals = ap seal_list h.seal

rehydrated :
    (prim : Primitives) (kind : EscrowKind) (pre said : String) (log : KelEventState) (db : Baser)
    → awaits_delegation kind ≡ false
    → is_misfit_kind kind ≡ false
    → HoldsMaterial (pre, said) log db
    → rehydrate_escrow_envelope prim kind pre said db ≡ ok (some (envelope_of kind log), db)
unfolding rehydrate_escrow_envelope rehydrate_stored get_evt_serder
rehydrated prim kind pre said log db plain own h =
    ap (rehydrate_stored prim kind pre said db) h.event
    ∙ ap
        (λ (m : Step (Unit {0})). m >>= λ repaired.
          promoted_misfit prim kind log.serder repaired.1 >>= λ promoted.
          ok (some (stored_envelope kind (pre, said) log.serder promoted.0 promoted.1), promoted.1))
        nothing_repaired
    ∙ ap
        (λ (m : Step Bool). m >>= λ promoted.
          ok (some (stored_envelope kind (pre, said) log.serder promoted.0 promoted.1), promoted.1))
        not_promoted
    ∙ ap (λ (e : KeverEventEnvelope). read e) (stored-envelope_of kind (pre, said) log db h)
  where
    read : KeverEventEnvelope → Step (Option KeverEventEnvelope)
    read e = ok (some e, db)

    nothing_repaired : repair_for prim kind log.serder db ≡ ok (tt, db)
    nothing_repaired = rw (plain, repair_for) refl

    not_promoted : promoted_misfit prim kind log.serder db ≡ ok (false, db)
    not_promoted = rw (own, promoted_misfit) refl

-- An event with a prefix and a digest that is escrowed is read back for its replay: the same event and
-- source seal, from the same source, with its signatures, each once. The condition is that nothing was
-- stored under its digest before, and that it waits neither for a delegation nor as a misfit.
pub persist-rehydrate :
    (prim : Primitives) (instruction : EscrowInstruction) (pre said : String) (db db' : Baser)
    → non_empty instruction.log.serder.pre ≡ some pre
    → non_empty instruction.log.serder.said ≡ some said
    → IsNew (pre, said) db
    → awaits_delegation instruction.escrow ≡ false
    → is_misfit_kind instruction.escrow ≡ false
    → persist_escrow_instruction prim instruction db ≡ ok (tt, db')
    → rehydrate_escrow_envelope prim instruction.escrow pre said db'
      ≡ ok (some (envelope_of instruction.escrow instruction.log), db')
unfolding persist_escrow_instruction persist_escrow_event_material
persist-rehydrate prim instruction pre said db db' has_pre has_said new plain own h =
    >>=-cases (persist_escrow_event_material prim instruction.log db) _ h λ m em h1.
      elim (Option-cases instruction.sn) [
        | inl no_sn ↦ absurd (ground (arith, no_sn, h1))
        | inr (sn, there) ↦
            let done : ◌≡◌ {A = Step (Unit {0})}
                (ok (tt, enter_bucket instruction.escrow instruction.pre sn instruction.said m.1))
                (ok (tt, db')) =
              rw there at h1 in
            let bucket : enter_bucket instruction.escrow instruction.pre sn instruction.said m.1
                ≡ db' =
              cc done in
            let stored : escrow_material prim (pre, said) instruction.log db ≡ m.1 =
              material_at m em in
            rehydrated prim instruction.escrow pre said instruction.log db' plain own (
              subst (HoldsMaterial (pre, said) instruction.log) bucket (
                bucket-HoldsMaterial (pre, said) instruction.log m.1
                  (enter_bucket instruction.escrow instruction.pre sn instruction.said m.1)
                  (bucket-SameMaterial instruction.escrow instruction.pre sn instruction.said m.1)
                  (subst (HoldsMaterial (pre, said) instruction.log) stored
                    (material-HoldsMaterial prim (pre, said) instruction.log db new))))
      ]
  where
    material_at :
        (m : Unit {0} × Baser)
        → persist_escrow_event_material prim instruction.log db ≡ ok m
        → escrow_material prim (pre, said) instruction.log db ≡ m.1
    material_at m em = elim (Bool-cases (every prim.is_prefix (or_else instruction.log.wits []))) [
      | inr bad_wit ↦ absurd (ground (arith, has_pre, has_said, bad_wit, em))
      | inl wits ↦
          let done : ◌≡◌ {A = Step (Unit {0})}
              (ok (tt, escrow_material prim (pre, said) instruction.log db)) (ok m) =
            ground (arith, has_pre, has_said, wits, em) in
          cc done
    ]
