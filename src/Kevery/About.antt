-- ===== src/Kevery/About.antt =====
-- What a decision of `decideEvent` says of its event.
use keri_ts.Tables.{get_set}
use keri_ts.Prelude.{
  ap, ℕ, ◌+◌, ◌≡◌, refl, Bool, true, false, not, ◌&&◌, Option, none, some, String, str_eq, leb, ltb,
  ◌==◌, length, ◌||◌, or_else, or_maybe, equals, non_empty, first, is_some, Bool-cases, inl, inr,
  if◌then◌else◌,
}
use keri_ts.Prelude.Sets.{string_eq}
use keri_ts.Prelude.Maps.{lookup, dg_key_eq}
use keri_ts.Prelude.Result.{ok}
use keri_ts.Event.{Serder, SourceSeal, KeverEventInit}
use keri_ts.Event.Decision.{
  EscrowKind, ooo, duplicitous, KeverDecision, kever_duplicate, late_attachments, same_said,
}
use keri_ts.Kever.{Primitives, Kever, Baser}
use keri_ts.Kever.Store.{get_last}
use keri_ts.Kever.Store.Yields.{Yields, ok-Yields, if-Yields, then-Yields}
use keri_ts.Kever.About.{IsAbout, evaluate_update-IsAbout, evaluate_inception-IsAbout}
use keri_ts.Kever.Rotation.{kever_said}
use keri_ts.Kevery.Duplicate.{
  new_source_seal, late_log, duplicate_of, build_duplicate_decision, has_verfers,
}
use keri_ts.Kevery.{
  KeverEventEnvelope, make_kever_event_init, make_event_escrow, is_inception, decide_reinception,
  decide_update, decide_by_kever, EventParts, event_parts, missing_part, decide_parts, decide_event,
  false,
}

missing-IsAbout : (serder serder' : Serder) → IsAbout serder (missing_part serder')
missing-IsAbout serder serder' = elim (Bool-cases (is_some (non_empty serder'.pre))) [
  | inr absent ↦ rw absent tt
  | inl there ↦ elim (Bool-cases (is_some (non_empty serder'.ilk))) [
    | inr absent ↦ rw there (rw absent tt)
    | inl there' ↦ rw there (rw there' tt)
  ]
]

escrow-IsAbout :
    (kind : EscrowKind) (init : KeverEventInit) → IsAbout init.serder (make_event_escrow kind init)
unfolding make_event_escrow
escrow-IsAbout kind init = record {
  same_reason = refl;
  event = refl;
  pre = λ p named. ap (λ o. or_else o "") named;
  said = refl;
  sn = refl;
}

module _ (prim : Primitives) (init : KeverEventInit) (fresh : init.check ≡ false) where
  About : KeverDecision → Type 0
  About = IsAbout init.serder

  late-IsAbout :
      (k : Kever) (db : Baser) (seal : Option SourceSeal)
      → About (duplicate_of (late_log prim k init db seal))
  unfolding About late_log
  late-IsAbout k db seal = new_or_not (
      ltb 0 (length (late_log prim k init db seal).sigers)
      || ltb 0 (length (late_log prim k init db seal).wigers)
      || is_some seal)
    where
      new_or_not :
          (b : Bool)
          → About (
              if b
              then kever_duplicate late_attachments (some (late_log prim k init db seal))
              else kever_duplicate same_said none)
      new_or_not true = (refl, refl)
      new_or_not false = tt

  duplicate-IsAbout :
      (k : Kever) (db : Baser) → Yields About (build_duplicate_decision prim k init db)
  unfolding build_duplicate_decision
  duplicate-IsAbout k db =
      then-Yields About
        (new_source_seal prim k init.serder (or_maybe (first init.ssts) (first init.sscs)) db) _
        λ r.
          if-Yields About (has_verfers prim (get_set (k.pre, or_else init.serder.said "") r.1.wits))
            _ _
            (λ _.
              ok-Yields About (duplicate_of (late_log prim k init r.1 r.0)) r.1
                (late-IsAbout k r.1 r.0))
            λ _ s e. absurd (cc e)

  reinception-IsAbout :
      (k : Kever) (said : String) (sn : ℕ) (db : Baser)
      → Yields About (decide_reinception prim k init said sn db)
  unfolding decide_reinception make_event_escrow About
  reinception-IsAbout k said sn db =
      if-Yields About (not (sn == 0)) _ _ (λ _. ok-Yields About _ db tt)
        λ _.
          if-Yields About (str_eq (kever_said k) said) _ _ (λ _. duplicate-IsAbout k db)
            λ _. ok-Yields About _ db (escrow-IsAbout duplicitous init)

  update-IsAbout :
      (k : Kever) (pre said : String) (sn : ℕ) (db : Baser)
      → Yields About (decide_update prim k init pre said sn db)
  unfolding decide_update make_event_escrow About
  update-IsAbout k pre said sn db =
      if-Yields About (equals (non_empty (get_last db.kels pre sn)) said && leb sn k.sn) _ _
        (λ _. duplicate-IsAbout k db)
        λ _.
          if-Yields About (ltb (k.sn + 1) sn) _ _
            (λ _. ok-Yields About _ db (escrow-IsAbout ooo init))
            λ _. evaluate_update-IsAbout prim k init db fresh

  kever-IsAbout :
      (pre ilk said : String) (sn : ℕ) (db : Baser) (known : Option Kever)
      → Yields About (decide_by_kever prim init pre ilk said sn db known)
  unfolding decide_by_kever make_event_escrow About
  kever-IsAbout pre ilk said sn db none =
      if-Yields About (is_inception ilk) _ _ (λ _. evaluate_inception-IsAbout prim init db fresh)
        λ _. ok-Yields About _ db (escrow-IsAbout ooo init)
  kever-IsAbout pre ilk said sn db (some k) =
      if-Yields About (is_inception ilk) _ _ (λ _. reinception-IsAbout k said sn db)
        λ _. update-IsAbout k pre said sn db

  parts-IsAbout :
      (db : Baser) (parts : Option EventParts) → Yields About (decide_parts prim init db parts)
  unfolding decide_parts About
  parts-IsAbout db none =
      ok-Yields About (missing_part init.serder) db (missing-IsAbout init.serder init.serder)
  parts-IsAbout db (some parts) =
      if-Yields About (not (prim.is_prefix parts.pre)) _ _ (λ _. ok-Yields About _ db tt)
        λ _. kever-IsAbout parts.pre parts.ilk parts.said parts.sn db (lookup parts.pre db.kevers)

-- What `decideEvent` accepts is recorded as the event itself, first-seen, under the event's prefix,
-- number and digest, with a key state of that prefix at that number and digest; what it logs of a
-- duplicate is the event again, not first-seen; what it escrows is the event under the reason of the
-- decision, at the event's prefix, number and digest.
pub decide_event-IsAbout :
    (prim : Primitives) (local : Bool) (envelope : KeverEventEnvelope) (db db' : Baser)
    (d : KeverDecision)
    → decide_event prim local envelope db ≡ ok (d, db')
    → IsAbout envelope.serder d
unfolding decide_event About
decide_event-IsAbout prim local envelope db db' d h =
    parts-IsAbout prim (make_kever_event_init envelope (or_else envelope.local local)) refl db
      (event_parts envelope.serder) (d, db') h
