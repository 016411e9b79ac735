-- ===== src/Kever/Seals/Repaired.antt =====
-- What a fetch of a delegating event changes: the stored source seals, and no other table; and the
-- fetch of the event that sealed an accepted one finds a stored event.
use keri_ts.Prelude.{
  ◌≡◌, refl, sym, ◌∙◌, ap, Bool, true, false, Option, some, String, is_some, Bool-cases,
  Option-cases, inl, inr, arith,
}
use keri_ts.Prelude.Maps.{Map, DgKey, dg_key_eq, lookup, pin, rem}
use keri_ts.Event.{Serder, SourceSeal}
use keri_ts.Kever.{Baser}
use keri_ts.Kever.Store.{get_evt_serder}
use keri_ts.Kever.Seals.{
  DelegatingEventLookup, key_of, accepted_source_seal_for_event, drop_accepted_source_seal,
  repair_accepted_source_seal, lookup_accepted_delegating_event,
}
use keri_ts.Kever.Seals.Fetch.{
  search_delegating_event, search_and_repair, hinted, fetch_current, fetch_original,
}
use keri_ts.Kever.Seals.Found.{
  IsFound, accepted-IsFound, eager-IsFound, sealing-IsFound, fetch_current-IsSealing,
}

-- The tables are the same but for the stored source seals.
pub record IsRepaired (db db' : Baser) : Type 0 where
  pub seals : Map DgKey SourceSeal
  pub same : db' ≡ record db { aess = seals }

pub IsRepaired-refl : (db : Baser) → IsRepaired db db
IsRepaired-refl db = record { seals = db.aess; same = refl }

IsRepaired-trans : (a b c : Baser) → IsRepaired a b → IsRepaired b c → IsRepaired a c
IsRepaired-trans a b c ab bc = record {
  seals = bc.seals;
  same = bc.same ∙ ap (λ (x : Baser). record x { aess = bc.seals }) ab.same;
}

module _ (db : Baser) (serder : Serder) where
  drop-IsRepaired : IsRepaired db (drop_accepted_source_seal db serder)
  unfolding drop_accepted_source_seal
  drop-IsRepaired = elim (Option-cases (key_of serder)) [
    | inl no_key ↦ record { seals = db.aess; same = ground (arith, no_key) }
    | inr (key, has_key) ↦ record { seals = rem key db.aess; same = ground (arith, has_key) }
  ]

  repair-IsRepaired :
      (found : DelegatingEventLookup) → IsRepaired db (repair_accepted_source_seal db serder found)
  unfolding repair_accepted_source_seal
  repair-IsRepaired found = elim (Option-cases (key_of serder)) [
    | inl no_key ↦ record { seals = db.aess; same = ground (arith, no_key) }
    | inr (key, has_key) ↦ elim (Bool-cases (is_some (lookup key db.fons))) [
      | inl seen ↦ record {
        seals = pin key found.source_seal db.aess;
        same = ground (arith, has_key, seen);
      }
      | inr unseen ↦ record { seals = db.aess; same = ground (arith, has_key, unseen) }
    ]
  ]

  search-IsRepaired :
      (delpre : String) (original eager : Bool)
      → IsRepaired db (search_and_repair db delpre serder original eager).1
  unfolding search_and_repair
  search-IsRepaired delpre original false = IsRepaired-refl db
  search-IsRepaired delpre original true =
      elim (Option-cases (search_delegating_event db delpre serder original)) [
        | inl missing ↦ record { seals = db.aess; same = ground (arith, missing) }
        | inr (found, there) ↦
            let r = repair-IsRepaired found in
            record { seals = r.seals; same = ground (arith, there, r.same) }
      ]

pub fetch_current-IsRepaired :
    (db : Baser) (delpre : String) (serder : Serder) (hint : Option SourceSeal) (eager : Bool)
    → IsRepaired db (fetch_current db delpre serder hint eager).1
unfolding fetch_current
fetch_current-IsRepaired db delpre serder hint eager =
    elim (Option-cases (hinted db delpre hint serder)) [
      | inr (found, e) ↦ record { seals = db.aess; same = ground (arith, e) }
      | inl missed ↦
          elim (Option-cases (hinted db delpre (accepted_source_seal_for_event db serder) serder)) [
            | inr (found, e) ↦
                let r = repair-IsRepaired db serder found in
                record { seals = r.seals; same = ground (arith, missed, e, r.same) }
            | inl missed' ↦
                let r = search-IsRepaired db serder delpre false eager in
                record { seals = r.seals; same = ground (arith, missed, missed', r.same) }
          ]
    ]

pub fetch_original-IsRepaired :
    (db : Baser) (delpre : String) (serder : Serder) (eager : Bool)
    → IsRepaired db (fetch_original db delpre serder eager).1
unfolding fetch_original
fetch_original-IsRepaired db delpre serder eager =
    elim (Option-cases (accepted_source_seal_for_event db serder)) [
      | inl no_seal ↦
          let r = search-IsRepaired db serder delpre true eager in
          record { seals = r.seals; same = ground (arith, no_seal, r.same) }
      | inr (stored, e) ↦
          elim (Option-cases (lookup_accepted_delegating_event db delpre stored serder)) [
            | inr (exact, e') ↦ record { seals = db.aess; same = ground (arith, e, e') }
            | inl stale ↦
                let dropped = drop_accepted_source_seal db serder in
                let r =
                  IsRepaired-trans db dropped (search_and_repair dropped delpre serder true eager).1
                    (drop-IsRepaired db serder)
                    (search-IsRepaired dropped serder delpre true eager) in
                record { seals = r.seals; same = ground (arith, e, stale, r.same) }
          ]
    ]

-- What a fetch finds stands in the table of events.
abbrev pub IsStored : Baser → DelegatingEventLookup → Type 0
IsStored db l = (key : DgKey) × (lookup key db.evts ≡ some l.serder)

repaired-IsStored :
    (db db' : Baser) (l : DelegatingEventLookup)
    → IsRepaired db db'
    → IsStored db' l
    → IsStored db l
repaired-IsStored db db' l r (key, there) =
    (key, ap (λ (x : Baser). lookup key x.evts) (sym r.same) ∙ there)

found-IsStored :
    (db : Baser) (delpre : String) (serder : Serder) (l : DelegatingEventLookup)
    → IsFound db delpre serder l
    → IsStored db l
unfolding get_evt_serder
found-IsStored db delpre serder l is_found = ((delpre, is_found.digest), is_found.stored)

pub fetch_current-IsStored :
    (db : Baser) (delpre : String) (serder : Serder) (hint : Option SourceSeal) (eager : Bool)
    (l : DelegatingEventLookup)
    → (fetch_current db delpre serder hint eager).0 ≡ some l
    → IsStored db l
fetch_current-IsStored db delpre serder hint eager l h =
    found-IsStored db delpre serder l
      (sealing-IsFound db delpre serder l (fetch_current-IsSealing db delpre serder hint eager l h))

search-IsStored :
    (db : Baser) (delpre : String) (serder : Serder) (eager : Bool) (l : DelegatingEventLookup)
    → (search_and_repair db delpre serder true eager).0 ≡ some l
    → IsStored db l
search-IsStored db delpre serder eager l h =
    found-IsStored db delpre serder l (eager-IsFound db delpre serder true eager l h)

pub fetch_original-IsStored :
    (db : Baser) (delpre : String) (serder : Serder) (eager : Bool) (l : DelegatingEventLookup)
    → (fetch_original db delpre serder eager).0 ≡ some l
    → IsStored db l
unfolding fetch_original
fetch_original-IsStored db delpre serder eager l h =
    elim (Option-cases (accepted_source_seal_for_event db serder)) [
      | inl no_seal ↦ search-IsStored db delpre serder eager l (ground (arith, no_seal, h))
      | inr (stored, e) ↦
          elim (Option-cases (lookup_accepted_delegating_event db delpre stored serder)) [
            | inr (exact, e') ↦
                found-IsStored db delpre serder l
                  (accepted-IsFound db delpre serder stored l (e' ∙ ground (arith, e, e', h)))
            | inl stale ↦
                repaired-IsStored db (drop_accepted_source_seal db serder) l
                  (drop-IsRepaired db serder)
                  (search-IsStored (drop_accepted_source_seal db serder) delpre serder eager l
                    (ground (arith, e, stale, h)))
          ]
    ]
