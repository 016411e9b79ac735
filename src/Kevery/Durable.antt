-- ===== src/Kevery/Durable.antt =====
-- After an event is accepted, the database alone gives the live state back.
use mathlib.Core.Path.{subst}
use keri_ts.Prelude.{
  ℕ, ◌≡◌, refl, sym, ◌∙◌, ap, Bool, true, false, not, ◌||◌, Option, none, some, List, [], ◌∷◌,
  String, truthy, is_some, or_else, non_empty, non_empty-eq, str_eq, Bool-cases, Option-cases, inl,
  inr, if◌then◌else◌, arith, or_maybe, equals, ◌&&◌,
}
use keri_ts.Prelude.Sets.{string_eq, has, has-added}
use keri_ts.Prelude.Maps.{Map, DgKey, dg_key_eq, lookup, pin, lookup-pin, lookup-pin-new}
use keri_ts.Prelude.Result.{Result, ok, err, ◌>>=◌, >>=-cases}
use keri_ts.Tables.{KelItem, kel_item_eq, put}
use keri_ts.Event.{Serder, SourceSeal, KeyStateRecord}
use keri_ts.Event.Decision.{AgentCue, KelEventState, KeverTransition, kever_accept}
use keri_ts.Kever.{Primitives, Thrown, Kever, Baser}
use keri_ts.Kever.Load.{need_text, load_state}
use keri_ts.Kever.Store.{Step, get_evt_serder, reload_event, from_state, get_kever}
use keri_ts.Kever.Store.Quiet.{IsQuiet}
use keri_ts.Kever.About.{IsTransitionOf, IsAbout}
use keri_ts.Kever.Update.{apply_transition}
use keri_ts.Kever.Log.{LoggedEvent, log_date, log_material, log_first, log_place}
use keri_ts.Kever.Log.Written.{with_material, IsLogged, log_event-IsLogged}
use keri_ts.Kevery.{KeverEventEnvelope, decide_event}
use keri_ts.Kevery.Quiet.{decide_event-IsQuiet}
use keri_ts.Kevery.About.{decide_event-IsAbout}
use keri_ts.Kevery.Repair.{
  kever_delegator, state_di, repair_anchor, repair_anchors, repair_anchored_seals,
}
use keri_ts.Kevery.Apply.{
  Pushed, apply_first_seen_state, is_group, pin_accepted, apply_accept, apply_decision,
}
use keri_ts.Kevery.Applied.{IsApplied, apply_accept-IsApplied, repair-Quiet}
use keri_ts.Kevery.Replay.{process_event}

-- A live state that is cached stays cached.
module _ (pre : String) (k : Kever) where
  Keeps : {A : Type 0} → Baser → Step A → Type 0
  Keeps {A} db step =
      lookup pre db.kevers ≡ some k → (r : A × Baser) → step ≡ ok r → lookup pre r.1.kevers ≡ some k

  kept : {A : Type 0} (a : A) (db : Baser) → Keeps {A = A} db (ok (a, db))
  unfolding Keeps
  kept a db there r e =
      let same : db ≡ r.1 = cc e in ap (λ (x : Baser). lookup pre x.kevers) (sym same) ∙ there

  then-Keeps :
      {A B : Type 0} (db : Baser) (m : Step A) (f : A × Baser → Step B)
      → Keeps db m
      → ((r : A × Baser) → Keeps r.1 (f r))
      → Keeps db (m >>= f)
  unfolding Keeps
  then-Keeps db (ok a) f km kf there r e = kf a (km there a refl) r e
  then-Keeps db (err thrown) f km kf there r e = absurd (cc e)

  if-Keeps :
      {A : Type 0} (db : Baser) (b : Bool) (x y : Step A)
      → Keeps db x
      → Keeps db y
      → Keeps db (if b then x else y)
  if-Keeps db true x y kx ky = kx
  if-Keeps db false x y kx ky = ky

  get_kever-Keeps : (prim : Primitives) (db : Baser) (p : String) → Keeps db (get_kever prim db p)
  unfolding get_kever Keeps
  get_kever-Keeps prim db p there r h = elim (Option-cases (lookup p db.kevers)) [
    | inr (current, here) ↦ kept (some current) db there r (ground (arith, here, h))
    | inl absent ↦ elim (Option-cases (lookup p db.states)) [
      | inl unknown ↦ kept none db there r (ground (arith, absent, unknown, h))
      | inr (state, known) ↦ loaded absent state (ground (arith, absent, known, h))
    ]
  ]
    where
      loaded :
          lookup p db.kevers ≡ none
          → (state : KeyStateRecord)
          → (from_state prim db state >>= λ kever.
              ok (some kever, record db { kevers = pin p kever db.kevers }))
            ≡ ok r
          → lookup pre r.1.kevers ≡ some k
      loaded absent state e = >>=-cases (from_state prim db state) _ e λ kever ek done.
          let same : record db { kevers = pin p kever db.kevers } ≡ r.1 = cc done in
          ap (λ (x : Baser). lookup pre x.kevers) (sym same)
          ∙ lookup-pin-new pre p k kever db.kevers absent there

  anchor-Keeps :
      (prim : Primitives) (delpre : String) (seal : SourceSeal) (p dig : String) (db : Baser)
      → Keeps db (repair_anchor prim delpre seal p dig db)
  unfolding repair_anchor Keeps
  anchor-Keeps prim delpre seal p dig db =
      if-Keeps db
        (not (truthy (some p))
          || not (truthy (some dig))
          || not (is_some (get_evt_serder db p dig)))
        _ _ (kept tt db)
        (then-Keeps db _ _ (get_kever-Keeps prim db p) λ existing.
          repaired existing.1
            (equals (or_maybe (kever_delegator existing.0) (state_di existing.1 p)) delpre
              && not (is_some (lookup (p, dig) existing.1.aess)))
            (p, dig))
    where
      repaired :
          (db' : Baser) (b : Bool) (key : DgKey)
          → Keeps {A = Unit {0}} db'
              (ok (tt, if b then record db' { aess = pin key seal db'.aess } else db'))
      repaired db' true key there r e =
          kept tt (record db' { aess = pin key seal db'.aess }) there r e
      repaired db' false key there r e = kept tt db' there r e

  anchors-Keeps :
      (prim : Primitives) (delpre : String) (seal : SourceSeal) (anchors : List (String × String))
      (db : Baser)
      → Keeps db (repair_anchors prim delpre seal anchors db)
  unfolding repair_anchors
  anchors-Keeps prim delpre seal [] db = kept tt db
  anchors-Keeps prim delpre seal (anchor ∷ anchors) db =
      then-Keeps db _ _ (anchor-Keeps prim delpre seal anchor.0 anchor.1 db)
        λ r. anchors-Keeps prim delpre seal anchors r.1

  repair-Keeps :
      (prim : Primitives) (serder : Serder) (db : Baser)
      → Keeps db (repair_anchored_seals prim serder db)
  unfolding repair_anchored_seals
  repair-Keeps prim serder db = option-Keeps (non_empty serder.pre) _ _ (kept tt db) λ delpre.
      option-Keeps (non_empty serder.said) _ _ (kept tt db) λ said.
        option-Keeps serder.sn _ _ (kept tt db)
          λ sn. anchors-Keeps prim delpre (record { s = sn; d = said }) serder.anchors db
    where
      option-Keeps :
          {B : Type 0} (o : Option B) (x : Step (Unit {0})) (f : B → Step (Unit {0}))
          → Keeps db x
          → ((b : B) → Keeps db (f b))
          → Keeps db (elim o [ none ↦ x | some b ↦ f b ])
      option-Keeps none x f kx kf = kx
      option-Keeps (some b) x f kx kf = kf b

lookup-put :
    (key : DgKey) (serder : Serder) (evts : Map DgKey Serder)
    → ((s : Serder) → lookup key evts ≡ some s → s ≡ serder)
    → lookup key (put key serder evts) ≡ some serder
unfolding put
lookup-put key serder evts only = elim (Option-cases (lookup key evts)) [
  | inl absent ↦ rw absent (lookup-pin key serder evts)
  | inr (s, there) ↦ rw there (there ∙ ap some (only s there))
]

need_text-ok : (s : String) → non_empty (some s) ≡ some s → need_text (some s) ≡ ok s
unfolding need_text
need_text-ok s h = elim (Bool-cases (str_eq s "")) [
  | inl empty ↦ absurd (ground (arith, empty, h))
  | inr full ↦ ground (arith, full)
]

-- The reload from a database that has the state and the event.
reload-ok :
    (prim : Primitives) (db : Baser) (state : KeyStateRecord) (serder : Serder) (pre said : String)
    (k : Kever)
    → state.i ≡ some pre
    → state.d ≡ some said
    → non_empty (some pre) ≡ some pre
    → non_empty (some said) ≡ some said
    → lookup (pre, said) db.evts ≡ some serder
    → load_state prim state serder ≡ ok k
    → from_state prim db state ≡ ok k
unfolding from_state reload_event get_evt_serder lookup load_state need_text keri_ts.Kever.Load.need
    keri_ts.Kever.Load.load_date keri_ts.Kever.Load.load_threshold
    keri_ts.Kever.number_primitive_from_bigint keri_ts.Kever.encode_huge_ordinal
    keri_ts.Prelude.Sets.has
reload-ok prim db state serder pre said k i d full_pre full_said stored loads =
    ap
      (λ (m : Result Thrown String). m >>= λ i'.
        need_text state.d >>= λ d'. reload_event db i' d' >>= λ s. load_state prim state s)
      (ap need_text i ∙ need_text-ok pre full_pre)
    ∙ ap
        (λ (m : Result Thrown String).
          m >>= λ d'. reload_event db pre d' >>= λ s. load_state prim state s)
        (ap need_text d ∙ need_text-ok said full_said)
    ∙ ap (λ (m : Result Thrown Serder). m >>= λ s. load_state prim state s) event_there
    ∙ loads
  where
    event_there : reload_event db pre said ≡ ok serder
    event_there = rw (stored, reload_event, get_evt_serder) refl

material-stored :
    (prim : Primitives) (log : KelEventState) (db : Baser) (logged : LoggedEvent) (db' : Baser)
    (l : IsLogged prim log db logged db')
    → db'.evts ≡ put (l.pre, l.said) log.serder db.evts
unfolding log_first log_material
material-stored prim log db logged db' l =
    ap (λ (x : LoggedEvent × Baser). x.1.evts) (sym l.written) ∙ either
  where
    either :
        (log_place l.pre l.sn l.said (
          log_first
            (log_date prim log.frc)
            l.pre
            (l.pre, l.said)
            log
            (with_material prim (l.pre, l.said) log l.seals db))).1.evts
        ≡ put (l.pre, l.said) log.serder db.evts
    either = elim (Bool-cases log.first) [ inl first ↦ rw first refl | inr again ↦ rw again refl ]

log-placed :
    (prim : Primitives) (log : KelEventState) (db : Baser) (logged : LoggedEvent) (db' : Baser)
    (l : IsLogged prim log db logged db')
    → has (record { pre = l.pre; sn = l.sn; said = l.said }) db'.kels ≡ true
log-placed prim log db logged db' l =
    let item : KelItem = record { pre = l.pre; sn = l.sn; said = l.said } in
    ap (λ (x : LoggedEvent × Baser). has item x.1.kels) (sym l.written) ∙ has-added item _

pinned :
    (t : KeverTransition) (k : Kever) (db : Baser)
    → ((pin_accepted t k db).evts ≡ db.evts)
      × ((pin_accepted t k db).kels ≡ db.kels)
      × ((pin_accepted t k db).states ≡ pin t.pre t.state db.states)
      × ((pin_accepted t k db).kevers ≡ pin t.pre k db.kevers)
unfolding pin_accepted
pinned t k db = elim (Bool-cases (is_group (lookup k.pre db.habs))) [
  | inl group ↦ rw group (refl, refl, refl, refl)
  | inr single ↦ rw single (refl, refl, refl, refl)
]

-- The event is stored and has its place in the log, the live state is cached, and the stored key
-- state, of that place, makes the same live state.
pub record IsDurable (prim : Primitives) (serder : Serder) (t : KeverTransition) (db : Baser)
    : Type 0 where
  pub event : lookup (t.pre, t.said) db.evts ≡ some serder
  pub placed : has (record { pre = t.pre; sn = t.sn; said = t.said }) db.kels ≡ true
  pub live : Kever
  pub cached : lookup t.pre db.kevers ≡ some live
  pub state : KeyStateRecord
  pub stored : lookup t.pre db.states ≡ some state
  pub state_sn : state.s ≡ some t.sn
  pub state_said : state.d ≡ some t.said
  pub reloads : from_state prim db state ≡ ok live

applied-IsDurable :
    (prim : Primitives) (serder : Serder) (t : KeverTransition) (db db' : Baser)
    → IsApplied prim t db db'
    → IsTransitionOf serder t
    → ((s : Serder) → lookup (t.pre, t.said) db.evts ≡ some s → s ≡ serder)
    → IsDurable prim serder t db'
unfolding apply_first_seen_state apply_transition Keeps
applied-IsDurable prim serder t db db' a about only =
    let l : IsLogged prim t.log db a.logged a.between =
      log_event-IsLogged prim a.logging t.log db a.between a.logged a.logs in
    let seen : KeverTransition = apply_first_seen_state t a.logged in
    let (evts, kels, states, kevers) = pinned seen a.live a.between in
    let quiet : IsQuiet (pin_accepted seen a.live a.between) a.repaired.1 =
      repair-Quiet prim t.log.serder (pin_accepted seen a.live a.between) a.repaired a.repairs in
    let has_pre : serder.pre ≡ some l.pre =
      ap (λ (s : Serder). s.pre) (sym about.logs) ∙ non_empty-eq t.log.serder.pre l.pre l.has_pre in
    let has_said : serder.said ≡ some l.said =
      ap (λ (s : Serder). s.said) (sym about.logs)
      ∙ non_empty-eq t.log.serder.said l.said l.has_said in
    let same_pre : l.pre ≡ t.pre = ap (λ o. or_else o "") (sym has_pre) ∙ about.pre in
    let same_said : l.said ≡ t.said = ap (λ o. or_else o "") (sym has_said) ∙ about.said in
    let same_key : (l.pre, l.said) ≡ (t.pre, t.said) = cc (same_pre, same_said) in
    let there : lookup (t.pre, t.said) a.repaired.1.evts ≡ some serder =
      ap (λ (x : Baser). lookup (t.pre, t.said) x.evts) quiet.same
      ∙ ap (lookup (t.pre, t.said)) (
          evts
          ∙ material-stored prim t.log db a.logged a.between l
          ∙ ap (λ (key : DgKey). put key t.log.serder db.evts) same_key
          ∙ ap (λ s. put (t.pre, t.said) s db.evts) about.logs)
      ∙ lookup-put (t.pre, t.said) serder db.evts only in
    let same_sn : l.sn ≡ t.sn =
      cc (ap (λ (s : Serder). s.sn) about.logs, l.has_sn, about.numbered) in
    let item : KelItem = record { pre = t.pre; sn = t.sn; said = t.said } in
    subst (IsDurable prim serder t) a.ends (record {
      event = there;
      placed =
          ap (λ (x : Baser). has item x.kels) quiet.same
          ∙ ap (has item) kels
          ∙ subst
              (λ (x : String × ℕ × String).
                has (record { pre = x.0; sn = x.1; said = x.2 }) a.between.kels ≡ true)
              (cc (same_pre, same_sn, same_said)) (log-placed prim t.log db a.logged a.between l);
      state_sn = about.state_sn;
      state_said = about.state_said;
      live = a.live;
      cached =
          repair-Keeps t.pre a.live prim t.log.serder (pin_accepted seen a.live a.between)
            (ap (lookup t.pre) kevers ∙ lookup-pin t.pre a.live a.between.kevers) a.repaired
            a.repairs;
      state = seen.state;
      stored =
          ap (λ (x : Baser). lookup t.pre x.states) quiet.same
          ∙ ap (lookup t.pre) states
          ∙ lookup-pin t.pre seen.state a.between.states;
      reloads =
          reload-ok prim a.repaired.1 seen.state serder t.pre t.said a.live about.state_pre
            about.state_said
            (subst (λ p. non_empty (some p) ≡ some p) same_pre
              (ap non_empty (sym (non_empty-eq t.log.serder.pre l.pre l.has_pre)) ∙ l.has_pre))
            (subst (λ p. non_empty (some p) ≡ some p) same_said
              (ap non_empty (sym (non_empty-eq t.log.serder.said l.said l.has_said)) ∙ l.has_said))
            there (ap (load_state prim seen.state) (sym about.logs) ∙ a.made);
    })

-- After `processEvent` has accepted an event, the event is stored under its digest and stands in the
-- log of its prefix at its number, the stored key state is at that number and digest, and the live
-- state in the cache is the one that this key state and event make when they are loaded again. An
-- event that was stored before under the digest, from an escrow, must be the same event.
pub process_event-IsDurable :
    (prim : Primitives) (local : Bool) (envelope : KeverEventEnvelope) (db db' : Baser)
    (t : KeverTransition) (cues : List AgentCue) (out : Pushed)
    → process_event prim local envelope db ≡ ok ((kever_accept t cues, out), db')
    → ((s : Serder) → lookup (t.pre, t.said) db.evts ≡ some s → s ≡ envelope.serder)
    → IsDurable prim envelope.serder t db'
unfolding process_event apply_decision
process_event-IsDurable prim local envelope db db' t cues out h only =
    >>=-cases (decide_event prim local envelope db) _ h λ decided ed h1.
      >>=-cases (apply_decision prim decided.0 decided.1) _ h1 λ applied ea done.
        let same_d : decided.0 ≡ kever_accept t cues = cc done in
        let same_db : applied.1 ≡ db' = cc done in
        let quiet : IsQuiet db decided.1 =
          decide_event-IsQuiet prim local envelope db decided.1 decided.0 ed in
        let accepted : apply_accept prim t cues decided.1 ≡ ok applied =
          ap (λ d. apply_decision prim d decided.1) (sym same_d) ∙ ea in
        let about : IsTransitionOf envelope.serder t =
          subst (IsAbout envelope.serder) same_d
            (decide_event-IsAbout prim local envelope db decided.1 decided.0 ed) in
        subst (IsDurable prim envelope.serder t) same_db (
          applied-IsDurable prim envelope.serder t decided.1 applied.1
            (apply_accept-IsApplied prim t cues decided.1 applied.1 applied.0 accepted) about
            (λ s there.
              only s (ap (λ (x : Baser). lookup (t.pre, t.said) x.evts) (sym quiet.same) ∙ there)))
