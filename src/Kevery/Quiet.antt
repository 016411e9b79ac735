-- ===== src/Kevery/Quiet.antt =====
-- `decideEvent` changes no table but the stored source seals, and the cache.
use keri_ts.Prelude.{
  ℕ, ◌≡◌, Bool, not, ◌&&◌, Option, none, some, List, [], ◌∷◌, String, leb, ltb, ◌==◌, ◌+◌, str_eq,
  equals, non_empty, or_else, or_maybe, first, is_some, if◌then◌else◌,
}
use keri_ts.Prelude.Sets.{string_eq}
use keri_ts.Prelude.Maps.{dg_key_eq, lookup}
use keri_ts.Prelude.Result.{ok}
use keri_ts.Tables.{KelItem, get_set}
use keri_ts.Event.{EventSeal, Serder, SourceSeal, KeverEventInit}
use keri_ts.Event.Decision.{KeverDecision}
use keri_ts.Kever.{Primitives, Kever, Baser, invalid_verfer}
use keri_ts.Kever.Rotation.{kever_said}
use keri_ts.Kever.Store.{get_evt_serder, get_kel_items, get_last}
use keri_ts.Kever.Store.Quiet.{
  IsQuiet, Quiet, ok-Quiet, if-Quiet, option-Quiet, then-Quiet, err-Quiet,
}
use keri_ts.Kever.Quiet.{get_kever-Quiet, evaluate_update-Quiet, evaluate_inception-Quiet}
use keri_ts.Kevery.Duplicate.{
  fully_witnessed, seals_event, sealed_by, search_sealing, fetch_last_sealing_event,
  delegated_event, names_anchoring, valid_duplicate_source_seal, new_source_seal, late_log,
  duplicate_of, build_duplicate_decision, has_verfers,
}
use keri_ts.Kevery.{
  KeverEventEnvelope, make_kever_event_init, is_inception, decide_reinception, decide_update,
  decide_by_kever, EventParts, event_parts, decide_parts, decide_event,
}

module _ (prim : Primitives) where
  witnessed-Quiet : (serder : Serder) (db : Baser) → Quiet db (fully_witnessed prim serder db)
  unfolding fully_witnessed
  witnessed-Quiet serder db = option-Quiet db (non_empty serder.pre) _ _ (ok-Quiet db _) λ pre.
      option-Quiet db (non_empty serder.said) _ _ (ok-Quiet db _)
        λ said. then-Quiet db _ _ (get_kever-Quiet prim db pre) λ kever. ok-Quiet kever.1 _

  sealed-Quiet :
      (serder : Serder) (pre : String) (sn : ℕ) (said : String) (seals : List EventSeal)
      (db : Baser)
      → Quiet db (sealed_by prim serder pre sn said seals db)
  unfolding sealed_by
  sealed-Quiet serder pre sn said [] db = ok-Quiet db _
  sealed-Quiet serder pre sn said (seal ∷ seals) db =
      if-Quiet db (seals_event seal pre sn said) _ _
        (then-Quiet db _ _ (witnessed-Quiet serder db)
          λ r. if-Quiet r.1 r.0 _ _ (ok-Quiet r.1 _) (sealed-Quiet serder pre sn said seals r.1))
        (sealed-Quiet serder pre sn said seals db)

  search-Quiet :
      (delpre pre : String) (sn : ℕ) (said : String) (items : List KelItem) (db : Baser)
      → Quiet db (search_sealing prim delpre pre sn said items db)
  unfolding search_sealing
  search-Quiet delpre pre sn said [] db = ok-Quiet db _
  search-Quiet delpre pre sn said (item ∷ items) db =
      option-Quiet db (get_evt_serder db delpre item.said) _ _
        (search-Quiet delpre pre sn said items db)
        λ serder.
          then-Quiet db _ _ (sealed-Quiet serder pre sn said serder.event_seals db)
            λ r. if-Quiet r.1 r.0 _ _ (ok-Quiet r.1 _) (search-Quiet delpre pre sn said items r.1)

  pub fetch_last-Quiet :
      (delpre pre : String) (sn : ℕ) (said : String) (db : Baser)
      → Quiet db (fetch_last_sealing_event prim delpre pre sn said db)
  unfolding fetch_last_sealing_event
  fetch_last-Quiet delpre pre sn said db =
      search-Quiet delpre pre sn said (get_kel_items db delpre) db

  valid-Quiet :
      (k : Kever) (serder : Serder) (seal : SourceSeal) (db : Baser)
      → Quiet db (valid_duplicate_source_seal prim k serder seal db)
  unfolding valid_duplicate_source_seal
  valid-Quiet k serder seal db =
      option-Quiet db (delegated_event k serder) _ _ (ok-Quiet db _) λ event.
        then-Quiet db _ _ (fetch_last-Quiet event.delpre event.pre event.sn event.said db)
          λ r. ok-Quiet r.1 (names_anchoring seal r.0)

  seal-Quiet :
      (k : Kever) (serder : Serder) (seal : Option SourceSeal) (db : Baser)
      → Quiet db (new_source_seal prim k serder seal db)
  unfolding new_source_seal
  seal-Quiet k serder none db = ok-Quiet db _
  seal-Quiet k serder (some seal) db =
      if-Quiet db (is_some (lookup (k.pre, or_else serder.said "") db.aess)) _ _ (ok-Quiet db _) (
        then-Quiet db _ _ (valid-Quiet k serder seal db)
          λ r. ok-Quiet r.1 (if r.0 then some seal else none))

  duplicate-Quiet :
      (k : Kever) (init : KeverEventInit) (db : Baser)
      → Quiet db (build_duplicate_decision prim k init db)
  unfolding build_duplicate_decision
  duplicate-Quiet k init db =
      then-Quiet db _ _ (seal-Quiet k init.serder (or_maybe (first init.ssts) (first init.sscs)) db)
        λ r.
          if-Quiet r.1 (has_verfers prim (get_set (k.pre, or_else init.serder.said "") r.1.wits)) _
            _ (ok-Quiet r.1 (duplicate_of (late_log prim k init r.1 r.0)))
            (err-Quiet r.1 invalid_verfer)

  reinception-Quiet :
      (k : Kever) (init : KeverEventInit) (said : String) (sn : ℕ) (db : Baser)
      → Quiet db (decide_reinception prim k init said sn db)
  unfolding decide_reinception
  reinception-Quiet k init said sn db =
      if-Quiet db (not (sn == 0)) _ _ (ok-Quiet db _)
        (if-Quiet db (str_eq (kever_said k) said) _ _ (duplicate-Quiet k init db) (ok-Quiet db _))

  update-Quiet :
      (k : Kever) (init : KeverEventInit) (pre said : String) (sn : ℕ) (db : Baser)
      → Quiet db (decide_update prim k init pre said sn db)
  unfolding decide_update
  update-Quiet k init pre said sn db =
      if-Quiet db (equals (non_empty (get_last db.kels pre sn)) said && leb sn k.sn) _ _
        (duplicate-Quiet k init db)
        (if-Quiet db (ltb (k.sn + 1) sn) _ _ (ok-Quiet db _) (evaluate_update-Quiet prim k init db))

  kever-Quiet :
      (init : KeverEventInit) (pre ilk said : String) (sn : ℕ) (db : Baser) (known : Option Kever)
      → Quiet db (decide_by_kever prim init pre ilk said sn db known)
  unfolding decide_by_kever
  kever-Quiet init pre ilk said sn db none =
      if-Quiet db (is_inception ilk) _ _ (evaluate_inception-Quiet prim init db) (ok-Quiet db _)
  kever-Quiet init pre ilk said sn db (some k) =
      if-Quiet db (is_inception ilk) _ _ (reinception-Quiet k init said sn db)
        (update-Quiet k init pre said sn db)

  parts-Quiet :
      (init : KeverEventInit) (db : Baser) (parts : Option EventParts)
      → Quiet db (decide_parts prim init db parts)
  unfolding decide_parts
  parts-Quiet init db none = ok-Quiet db _
  parts-Quiet init db (some parts) =
      if-Quiet db (not (prim.is_prefix parts.pre)) _ _ (ok-Quiet db _)
        (kever-Quiet init parts.pre parts.ilk parts.said parts.sn db (lookup parts.pre db.kevers))

-- `decideEvent`, whatever it decides, leaves every table but the stored source seals (`aess.`) as it
-- was, and of what is held in memory all but the cache of live states.
pub decide_event-IsQuiet :
    (prim : Primitives) (local : Bool) (envelope : KeverEventEnvelope) (db db' : Baser)
    (d : KeverDecision)
    → decide_event prim local envelope db ≡ ok (d, db')
    → IsQuiet db db'
unfolding decide_event
decide_event-IsQuiet prim local envelope db db' d h =
    parts-Quiet prim (make_kever_event_init envelope (or_else envelope.local local)) db
      (event_parts envelope.serder) (d, db') h
