-- ===== src/Kevery/FirstSeen.antt =====
-- The first-seen log of `processEvent`: an accepted event gets the next ordinal of its prefix, and no
-- other decision touches the log or the key states.
use mathlib.Core.Path.{subst}
use keri_ts.Prelude.{
  ℕ, ◌≡◌, refl, sym, ◌∙◌, ap, Bool, true, false, Option, none, some, [], String, or_else,
  non_empty-eq, Bool-cases, inl, inr,
}
use keri_ts.Prelude.Sets.{string_eq}
use keri_ts.Prelude.Maps.{DgKey, dg_key_eq, lookup, pin, lookup-pin}
use keri_ts.Prelude.Result.{ok, ◌>>=◌, >>=-cases}
use keri_ts.Tables.{next_on, append_on}
use keri_ts.Tables.Contiguous.{IsContiguous, append-IsContiguous}
use keri_ts.Event.{Serder, SourceSeal, KeyStateRecord}
use keri_ts.Event.Decision.{
  EscrowKind, ooo, partial_sigs, partial_wigs, partial_dels, delegables, duplicitous, misfit,
  query_not_found, KelEventState, EscrowInstruction, KeverTransition, KeverDecision, kever_accept,
  kever_duplicate, kever_escrow, kever_reject,
}
use keri_ts.Kever.{Primitives, Kever, Baser, encode_huge_ordinal}
use keri_ts.Kever.Store.Quiet.{IsQuiet}
use keri_ts.Kever.About.{IsAbout}
use keri_ts.Kever.Log.{LoggedEvent, log_date, log_material, log_first, log_place, log_event}
use keri_ts.Kever.Log.Written.{with_material, IsLogged, log_event-IsLogged}
use keri_ts.Kevery.{KeverEventEnvelope, decide_event}
use keri_ts.Kevery.Quiet.{decide_event-IsQuiet}
use keri_ts.Kevery.About.{decide_event-IsAbout}
use keri_ts.Kevery.Escrow.Written.{persisted-written}
use keri_ts.Kevery.Escrow.{escrow_seal, escrow_material, enter_bucket, persist_escrow_instruction}
use keri_ts.Kevery.Apply.{
  Pushed, pushed, apply_first_seen_state, is_group, pin_accepted, apply_decision,
}
use keri_ts.Kevery.Applied.{IsApplied, apply_accept-IsApplied, repair-Quiet}
use keri_ts.Kevery.Replay.{process_event}

-- The event is entered under the next first-seen ordinal of its prefix, in both directions, and the
-- stored key state has that ordinal.
pub record IsFirstSeen (t : KeverTransition) (db db' : Baser) : Type 0 where
  pub pre : String
  pub said : String
  pub has_pre : t.log.serder.pre ≡ some pre
  pub has_said : t.log.serder.said ≡ some said
  pub appended : db'.fels ≡ append_on pre said db.fels
  pub ordinal : lookup (pre, said) db'.fons ≡ some (encode_huge_ordinal (next_on pre db.fels))
  pub state : KeyStateRecord
  pub stored : lookup pre db'.states ≡ some state
  pub numbered : state.f ≡ some (next_on pre db.fels)

-- The first-seen log, its inverse and the key states are as they were.
pub record IsUnseen (db db' : Baser) : Type 0 where
  pub fels : db'.fels ≡ db.fels
  pub fons : db'.fons ≡ db.fons
  pub states : db'.states ≡ db.states

abbrev pub Effect : Baser → Baser → KeverDecision → Type 0
Effect db db' (kever_accept t cues) = IsFirstSeen t db db'
Effect db db' (kever_duplicate kind log) = IsUnseen db db'
Effect db db' (kever_escrow reason instruction cues) = IsUnseen db db'
Effect db db' (kever_reject code) = IsUnseen db db'

IsUnseen-refl : (db : Baser) → IsUnseen db db
IsUnseen-refl db = record { fels = refl; fons = refl; states = refl }

IsUnseen-trans : (a b c : Baser) → IsUnseen a b → IsUnseen b c → IsUnseen a c
IsUnseen-trans a b c ab bc = record {
  fels = bc.fels ∙ ab.fels;
  fons = bc.fons ∙ ab.fons;
  states = bc.states ∙ ab.states;
}

quiet-IsUnseen : (db db' : Baser) → IsQuiet db db' → IsUnseen db db'
quiet-IsUnseen db db' q = record {
  fels = ap (λ (x : Baser). x.fels) q.same;
  fons = ap (λ (x : Baser). x.fons) q.same;
  states = ap (λ (x : Baser). x.states) q.same;
}

module _ (prim : Primitives) (log : KelEventState) (db : Baser) (logged : LoggedEvent) (db' : Baser)
    (l : IsLogged prim log db logged db') where
  abbrev written_to : LoggedEvent × Baser
  written_to = log_place l.pre l.sn l.said (
      log_first (log_date prim log.frc) l.pre (l.pre, l.said) log
        (with_material prim (l.pre, l.said) log l.seals db))

  first-logged :
      log.first ≡ true
      → (db'.fels ≡ append_on l.pre l.said db.fels)
        × (lookup (l.pre, l.said) db'.fons ≡ some (encode_huge_ordinal (next_on l.pre db.fels)))
        × (logged.fn ≡ some (next_on l.pre db.fels))
        × (db'.states ≡ db.states)
  unfolding log_first log_material
  first-logged first = (
    ap (λ (x : LoggedEvent × Baser). x.1.fels) (sym l.written) ∙ rw first refl,
    ap (λ (x : LoggedEvent × Baser). lookup (l.pre, l.said) x.1.fons) (sym l.written)
        ∙ rw first
            (lookup-pin (l.pre, l.said) (encode_huge_ordinal (next_on l.pre db.fels)) db.fons),
    ap (λ (x : LoggedEvent × Baser). x.0.fn) (sym l.written) ∙ rw first refl,
    ap (λ (x : LoggedEvent × Baser). x.1.states) (sym l.written) ∙ rw first refl,
  )

  again-logged : log.first ≡ false → IsUnseen db db'
  unfolding log_first log_material
  again-logged again = record {
    fels = ap (λ (x : LoggedEvent × Baser). x.1.fels) (sym l.written) ∙ rw again refl;
    fons = ap (λ (x : LoggedEvent × Baser). x.1.fons) (sym l.written) ∙ rw again refl;
    states = ap (λ (x : LoggedEvent × Baser). x.1.states) (sym l.written) ∙ rw again refl;
  }

pinned :
    (t : KeverTransition) (k : Kever) (db : Baser)
    → ((pin_accepted t k db).fels ≡ db.fels)
      × ((pin_accepted t k db).fons ≡ db.fons)
      × ((pin_accepted t k db).states ≡ pin t.pre t.state db.states)
unfolding pin_accepted
pinned t k db = elim (Bool-cases (is_group (lookup k.pre db.habs))) [
  | inl group ↦ rw group (refl, refl, refl)
  | inr single ↦ rw single (refl, refl, refl)
]

accept-IsFirstSeen :
    (prim : Primitives) (t : KeverTransition) (db db' : Baser)
    → IsApplied prim t db db'
    → t.log.first ≡ true
    → or_else t.log.serder.pre "" ≡ t.pre
    → IsFirstSeen t db db'
unfolding apply_first_seen_state
accept-IsFirstSeen prim t db db' a first named =
    let l : IsLogged prim t.log db a.logged a.between =
      log_event-IsLogged prim a.logging t.log db a.between a.logged a.logs in
    let (appended, ordinal, fn, states) = first-logged prim t.log db a.logged a.between l first in
    let seen : KeverTransition = apply_first_seen_state t a.logged in
    let (fels, fons, pinned_states) = pinned seen a.live a.between in
    let u : IsUnseen (pin_accepted seen a.live a.between) a.repaired.1 =
      quiet-IsUnseen (pin_accepted seen a.live a.between) a.repaired.1 (
        repair-Quiet prim t.log.serder (pin_accepted seen a.live a.between) a.repaired a.repairs) in
    let has_pre : t.log.serder.pre ≡ some l.pre = non_empty-eq t.log.serder.pre l.pre l.has_pre in
    let under : l.pre ≡ t.pre = ap (λ o. or_else o "") (sym has_pre) ∙ named in
    record {
      pre = l.pre;
      said = l.said;
      has_pre = has_pre;
      has_said = non_empty-eq t.log.serder.said l.said l.has_said;
      appended = ap (λ (x : Baser). x.fels) (sym a.ends) ∙ u.fels ∙ fels ∙ appended;
      ordinal =
          ap (λ (x : Baser). lookup (l.pre, l.said) x.fons) (sym a.ends)
          ∙ ap (lookup (l.pre, l.said)) (u.fons ∙ fons)
          ∙ ordinal;
      state = seen.state;
      stored =
          ap (λ (x : Baser). lookup l.pre x.states) (sym a.ends)
          ∙ ap (lookup l.pre) (u.states ∙ pinned_states)
          ∙ ap (λ p. lookup p (pin t.pre seen.state a.between.states)) under
          ∙ lookup-pin t.pre seen.state a.between.states;
      numbered = ap (λ (fn : Option ℕ). elim fn [ none ↦ t.state.f | some n ↦ some n ]) fn;
    }

material-IsUnseen :
    (prim : Primitives) (key : DgKey) (log : KelEventState) (db : Baser)
    → IsUnseen db (escrow_material prim key log db)
unfolding escrow_material
material-IsUnseen prim key log db = sealed log.source_seal _ refl refl refl
  where
    sealed :
        (o : Option SourceSeal) (db' : Baser)
        → db'.fels ≡ db.fels
        → db'.fons ≡ db.fons
        → db'.states ≡ db.states
        → IsUnseen db (escrow_seal key o db')
    sealed none db' e f s = record { fels = e; fons = f; states = s }
    sealed (some seal) db' e f s = record { fels = e; fons = f; states = s }

bucket-IsUnseen :
    (kind : EscrowKind) (pre : String) (sn : ℕ) (said : String) (db : Baser)
    → IsUnseen db (enter_bucket kind pre sn said db)
unfolding enter_bucket
bucket-IsUnseen ooo pre sn said db = record { fels = refl; fons = refl; states = refl }
bucket-IsUnseen partial_sigs pre sn said db = record { fels = refl; fons = refl; states = refl }
bucket-IsUnseen partial_wigs pre sn said db = record { fels = refl; fons = refl; states = refl }
bucket-IsUnseen partial_dels pre sn said db = record { fels = refl; fons = refl; states = refl }
bucket-IsUnseen duplicitous pre sn said db = record { fels = refl; fons = refl; states = refl }
bucket-IsUnseen delegables pre sn said db = record { fels = refl; fons = refl; states = refl }
bucket-IsUnseen misfit pre sn said db = record { fels = refl; fons = refl; states = refl }
bucket-IsUnseen query_not_found pre sn said db = record { fels = refl; fons = refl; states = refl }

persisted-IsUnseen :
    (prim : Primitives) (instruction : EscrowInstruction) (db : Baser) (r : Unit {0} × Baser)
    → persist_escrow_instruction prim instruction db ≡ ok r
    → IsUnseen db r.1
persisted-IsUnseen prim instruction db r h =
    let (key, sn, there, same) = persisted-written prim instruction db r h in
    let material : Baser = escrow_material prim key instruction.log db in
    subst (IsUnseen db) same (
      IsUnseen-trans db material
        (enter_bucket instruction.escrow instruction.pre sn instruction.said material)
        (material-IsUnseen prim key instruction.log db)
        (bucket-IsUnseen instruction.escrow instruction.pre sn instruction.said material))

duplicate-IsUnseen :
    (prim : Primitives) (log : KelEventState) (db : Baser) (out : Pushed × Baser)
    (known : Option Kever)
    → log.first ≡ false
    → (elim known [
      | none ↦ pushed [] db
      | some k ↦ log_event prim k log db >>= λ logged.
          ok (record { cues = []; notices = logged.0.notices }, logged.1)
    ])
      ≡ ok out
    → IsUnseen db out.1
duplicate-IsUnseen prim log db out none again h =
    let same : db ≡ out.1 = cc h in subst (IsUnseen db) same (IsUnseen-refl db)
duplicate-IsUnseen prim log db out (some k) again h =
    >>=-cases (log_event prim k log db) _ h λ r el done.
      let same : r.1 ≡ out.1 = cc done in
      subst (IsUnseen db) same
        (again-logged prim log db r.0 r.1 (log_event-IsLogged prim k log db r.1 r.0 el) again)

decision-Effect :
    (prim : Primitives) (serder : Serder) (d : KeverDecision) (db : Baser) (out : Pushed × Baser)
    → IsAbout serder d
    → apply_decision prim d db ≡ ok out
    → Effect db out.1 d
unfolding apply_decision
decision-Effect prim serder (kever_accept t cues) db out about h =
    accept-IsFirstSeen prim t db out.1 (apply_accept-IsApplied prim t cues db out.1 out.0 h)
      about.first_seen (ap (λ (s : Serder). or_else s.pre "") about.logs ∙ about.pre)
decision-Effect prim serder (kever_duplicate kind none) db out about h =
    let same : db ≡ out.1 = cc h in subst (IsUnseen db) same (IsUnseen-refl db)
decision-Effect prim serder (kever_duplicate kind (some log)) db out about h =
    duplicate-IsUnseen prim log db out (lookup (or_else log.serder.pre "") db.kevers) about.1 h
decision-Effect prim serder (kever_escrow reason instruction cues) db out about h =
    >>=-cases (persist_escrow_instruction prim instruction db) _ h λ r er done.
      let same : r.1 ≡ out.1 = cc done in
      subst (IsUnseen db) same (persisted-IsUnseen prim instruction db r er)
decision-Effect prim serder (kever_reject code) db out about h =
    let same : db ≡ out.1 = cc h in subst (IsUnseen db) same (IsUnseen-refl db)

seen-after : (d : KeverDecision) (a b c : Baser) → IsUnseen a b → Effect b c d → Effect a c d
seen-after (kever_accept t cues) a b c u s = record {
  pre = s.pre;
  said = s.said;
  has_pre = s.has_pre;
  has_said = s.has_said;
  appended = s.appended ∙ ap (append_on s.pre s.said) u.fels;
  ordinal = s.ordinal ∙ ap (λ items. some (encode_huge_ordinal (next_on s.pre items))) u.fels;
  state = s.state;
  stored = s.stored;
  numbered = s.numbered ∙ ap (λ items. some (next_on s.pre items)) u.fels;
}
seen-after (kever_duplicate kind log) a b c u s = IsUnseen-trans a b c u s
seen-after (kever_escrow reason instruction cues) a b c u s = IsUnseen-trans a b c u s
seen-after (kever_reject code) a b c u s = IsUnseen-trans a b c u s

-- What `processEvent` does where it returns, by its decision: an accepted event is entered in the
-- first-seen log under the next ordinal of its prefix, that ordinal is stored under its digest, and
-- the stored key state has it; an event that is a duplicate, escrowed or rejected leaves the log, the ordinals and the key states
-- as they were.
pub process_event-Effect :
    (prim : Primitives) (local : Bool) (envelope : KeverEventEnvelope) (db db' : Baser)
    (d : KeverDecision) (out : Pushed)
    → process_event prim local envelope db ≡ ok ((d, out), db')
    → Effect db db' d
unfolding process_event
process_event-Effect prim local envelope db db' d out h =
    >>=-cases (decide_event prim local envelope db) _ h λ decided ed h1.
      >>=-cases (apply_decision prim decided.0 decided.1) _ h1 λ applied ea done.
        let same_d : decided.0 ≡ d = cc done in
        let same_db : applied.1 ≡ db' = cc done in
        let effect : Effect decided.1 applied.1 decided.0 =
          decision-Effect prim envelope.serder decided.0 decided.1 applied
            (decide_event-IsAbout prim local envelope db decided.1 decided.0 ed) ea in
        let u : IsUnseen db decided.1 =
          quiet-IsUnseen db decided.1
            (decide_event-IsQuiet prim local envelope db decided.1 decided.0 ed) in
        subst (λ x. Effect db x d) same_db
          (subst (Effect db applied.1) same_d
            (seen-after decided.0 db decided.1 applied.1 u effect))

Effect-IsContiguous :
    (d : KeverDecision) (db db' : Baser)
    → Effect db db' d
    → IsContiguous db.fels
    → IsContiguous db'.fels
Effect-IsContiguous (kever_accept t cues) db db' s c =
    subst IsContiguous (sym s.appended) (append-IsContiguous s.pre s.said db.fels c)
Effect-IsContiguous (kever_duplicate kind log) db db' u c = subst IsContiguous (sym u.fels) c
Effect-IsContiguous (kever_escrow reason instruction cues) db db' u c =
    subst IsContiguous (sym u.fels) c
Effect-IsContiguous (kever_reject code) db db' u c = subst IsContiguous (sym u.fels) c

-- `processEvent` keeps the first-seen log contiguous: under each prefix its ordinals count from 0 on,
-- without a gap and without a repetition.
pub process_event-IsContiguous :
    (prim : Primitives) (local : Bool) (envelope : KeverEventEnvelope) (db db' : Baser)
    (d : KeverDecision) (out : Pushed)
    → process_event prim local envelope db ≡ ok ((d, out), db')
    → IsContiguous db.fels
    → IsContiguous db'.fels
process_event-IsContiguous prim local envelope db db' d out h =
    Effect-IsContiguous d db db' (process_event-Effect prim local envelope db db' d out h)
