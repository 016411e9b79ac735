-- ===== src/Kevery/Applied.antt =====
-- What the application of an accepted decision has done when it returns.
use keri_ts.Prelude.{
  ◌≡◌, refl, Bool, true, false, not, ◌||◌, some, List, [], ◌∷◌, String, is_some, truthy, non_empty,
  if◌then◌else◌,
}
use keri_ts.Prelude.Sets.{string_eq}
use keri_ts.Prelude.Maps.{dg_key_eq, lookup, pin}
use keri_ts.Prelude.Result.{ok, >>=-cases}
use keri_ts.Event.{Serder, SourceSeal}
use keri_ts.Event.Decision.{AgentCue, KeverTransition}
use keri_ts.Kever.{Primitives, Kever, Baser}
use keri_ts.Kever.Store.{get_evt_serder}
use keri_ts.Kever.Store.Quiet.{
  IsQuiet, IsQuiet-refl, Quiet, ok-Quiet, moved-Quiet, if-Quiet, option-Quiet, then-Quiet,
}
use keri_ts.Kever.Quiet.{get_kever-Quiet}
use keri_ts.Kever.Update.{apply_transition}
use keri_ts.Kever.Log.{LoggedEvent, log_event}
use keri_ts.Kevery.Repair.{repair_anchor, repair_anchors, repair_anchored_seals}
use keri_ts.Kevery.Apply.{
  Pushed, apply_first_seen_state, logging_kever, pin_accepted, finish_accept, apply_accept,
}

module _ (prim : Primitives) (delpre : String) (seal : SourceSeal) where
  anchor-Quiet :
      (pre dig : String) (db : Baser) → Quiet db (repair_anchor prim delpre seal pre dig db)
  unfolding repair_anchor
  anchor-Quiet pre dig db =
      if-Quiet db
        (not (truthy (some pre))
          || not (truthy (some dig))
          || not (is_some (get_evt_serder db pre dig)))
        _ _ (ok-Quiet db _)
        (then-Quiet db _ _ (get_kever-Quiet prim db pre)
          λ existing. moved-Quiet existing.1 tt _ (if_repaired existing.1 _ (pre, dig)))
    where
      if_repaired :
          (db' : Baser) (b : Bool) (key : String × String)
          → IsQuiet db' (if b then record db' { aess = pin key seal db'.aess } else db')
      if_repaired db' true key = record {
        seals = pin key seal db'.aess;
        cache = db'.kevers;
        same = refl;
      }
      if_repaired db' false key = IsQuiet-refl db'

  anchors-Quiet :
      (anchors : List (String × String)) (db : Baser)
      → Quiet db (repair_anchors prim delpre seal anchors db)
  unfolding repair_anchors
  anchors-Quiet [] db = ok-Quiet db _
  anchors-Quiet (anchor ∷ anchors) db =
      then-Quiet db _ _ (anchor-Quiet anchor.0 anchor.1 db) λ r. anchors-Quiet anchors r.1

pub repair-Quiet :
    (prim : Primitives) (serder : Serder) (db : Baser)
    → Quiet db (repair_anchored_seals prim serder db)
unfolding repair_anchored_seals
repair-Quiet prim serder db = option-Quiet db (non_empty serder.pre) _ _ (ok-Quiet db _) λ delpre.
    option-Quiet db (non_empty serder.said) _ _ (ok-Quiet db _) λ said.
      option-Quiet db serder.sn _ _ (ok-Quiet db _)
        λ sn. anchors-Quiet prim delpre (record { s = sn; d = said }) serder.anchors db

-- The event is logged, its transition at the ordinal and date that it was given becomes the live
-- state, and the stored source seals of the events that it anchors are repaired.
pub record IsApplied (prim : Primitives) (t : KeverTransition) (db db' : Baser) : Type 0 where
  pub logging : Kever
  pub logged : LoggedEvent
  pub between : Baser
  pub live : Kever
  pub repaired : Unit {0} × Baser
  pub logs : log_event prim logging t.log db ≡ ok (logged, between)
  pub made : apply_transition prim (apply_first_seen_state t logged) ≡ ok live
  pub repairs :
      repair_anchored_seals prim t.log.serder
        (pin_accepted (apply_first_seen_state t logged) live between)
      ≡ ok repaired
  pub ends : repaired.1 ≡ db'

pub apply_accept-IsApplied :
    (prim : Primitives) (t : KeverTransition) (cues : List AgentCue) (db db' : Baser) (out : Pushed)
    → apply_accept prim t cues db ≡ ok (out, db')
    → IsApplied prim t db db'
unfolding apply_accept finish_accept
apply_accept-IsApplied prim t cues db db' out h =
    >>=-cases (logging_kever prim t (lookup t.pre db.kevers)) _ h λ k0 ek h1.
      >>=-cases (log_event prim k0 t.log db) _ h1 λ r el h2.
        >>=-cases (apply_transition prim (apply_first_seen_state t r.0)) _ h2 λ k em h3.
          >>=-cases
            (repair_anchored_seals prim t.log.serder
              (pin_accepted (apply_first_seen_state t r.0) k r.1))
            _ h3
            λ repaired er done. record {
              logging = k0;
              logged = r.0;
              between = r.1;
              live = k;
              repaired = repaired;
              logs = el;
              made = em;
              repairs = er;
              ends = cc done;
            }
