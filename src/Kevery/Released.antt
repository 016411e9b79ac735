-- ===== src/Kevery/Released.antt =====
-- What the replay of an escrowed event does to its entry, by the new decision.
use mathlib.Core.Path.{subst}
use keri_ts.Prelude.{
  ◌≢◌, ℕ, ◌≡◌, refl, sym, ◌∙◌, ap, Bool, false, Option, none, some, List, [], String, inl, inr,
  Bool-cases, Option-cases, or_else, arith,
}
use keri_ts.Prelude.Sets.{string_eq}
use keri_ts.Prelude.Maps.{DgKey, dg_key_eq, lookup}
use keri_ts.Prelude.Result.{ok, ◌>>=◌, >>=-cases}
use keri_ts.Event.{Serder}
use keri_ts.Event.Decision.{
  AgentCue, EscrowKind, EscrowInstruction, KelEventState, KeverTransition, KeverDecision,
  kever_accept, kever_duplicate, kever_escrow, kever_reject,
}
use keri_ts.Kever.{Primitives, Kever, Baser}
use keri_ts.Kever.Store.{Step}
use keri_ts.Kever.Store.Quiet.{IsQuiet}
use keri_ts.Kever.About.{IsAbout}
use keri_ts.Kever.Log.{LoggedEvent, log_date, log_material, log_first, log_place, log_event}
use keri_ts.Kever.Log.Written.{with_material, IsLogged, log_event-IsLogged}
use keri_ts.Kevery.{KeverEventEnvelope, decide_event}
use keri_ts.Kevery.Quiet.{decide_event-IsQuiet}
use keri_ts.Kevery.About.{decide_event-IsAbout}
use keri_ts.Kevery.Escrow.{escrow_material, remove_escrow, persist_escrow_instruction, enter_bucket}
use keri_ts.Kevery.Escrow.Written.{persisted-written}
use keri_ts.Kevery.Apply.{
  Pushed, pushed, apply_first_seen_state, is_group, pin_accepted, apply_decision,
}
use keri_ts.Kevery.Applied.{IsApplied, apply_accept-IsApplied, repair-Quiet}
use keri_ts.Kevery.Replay.{
  same_kind, rehydrate_escrow_envelope, conclude_replay, replay_rehydrated, replay_escrow_entry,
}
use keri_ts.Kevery.Buckets.{
  IsOut, IsIn, removed-IsOut, entered-IsOut, entered-IsIn, buckets, same-IsOut, same_kind_iff,
}
use keri_ts.Kevery.Rehydrated.{rehydrate-Quiet}

module _ (prim : Primitives) where
  logged-same :
      (log : KelEventState) (db : Baser) (logged : LoggedEvent) (db' : Baser)
      → IsLogged prim log db logged db'
      → buckets db' ≡ buckets db
  unfolding log_first log_material
  logged-same log db logged db' l =
      ap (λ (x : LoggedEvent × Baser). buckets x.1) (sym l.written) ∙ either
    where
      either :
          buckets
            (log_place l.pre l.sn l.said (
              log_first
                (log_date prim log.frc)
                l.pre
                (l.pre, l.said)
                log
                (with_material prim (l.pre, l.said) log l.seals db))).1
          ≡ buckets db
      either = elim (Bool-cases log.first) [ inl first ↦ rw first refl | inr again ↦ rw again refl ]

  pinned-same :
      (t : KeverTransition) (k : Kever) (db : Baser) → buckets (pin_accepted t k db) ≡ buckets db
  unfolding pin_accepted
  pinned-same t k db = elim (Bool-cases (is_group (lookup k.pre db.habs))) [
    | inl group ↦ rw group refl
    | inr single ↦ rw single refl
  ]

  accepted-same :
      (t : KeverTransition) (db db' : Baser) → IsApplied prim t db db' → buckets db' ≡ buckets db
  accepted-same t db db' a =
      let seen : KeverTransition = apply_first_seen_state t a.logged in
      let quiet : IsQuiet (pin_accepted seen a.live a.between) a.repaired.1 =
        repair-Quiet prim t.log.serder (pin_accepted seen a.live a.between) a.repaired a.repairs in
      ap buckets (sym a.ends)
      ∙ ap buckets quiet.same
      ∙ pinned-same seen a.live a.between
      ∙ logged-same t.log db a.logged a.between
          (log_event-IsLogged prim a.logging t.log db a.between a.logged a.logs)

  material-same :
      (key : DgKey) (log : KelEventState) (db : Baser)
      → buckets (escrow_material prim key log db) ≡ buckets db
  unfolding escrow_material
  material-same key log db = elim (Option-cases log.source_seal) [
    | inl no_seal ↦ rw no_seal refl
    | inr (seal, there) ↦ rw there refl
  ]

  duplicate-same :
      (log : KelEventState) (db : Baser) (out : Pushed × Baser) (known : Option Kever)
      → (elim known [
        | none ↦ pushed [] db
        | some k ↦ log_event prim k log db >>= λ logged.
            ok (record { cues = []; notices = logged.0.notices }, logged.1)
      ])
        ≡ ok out
      → buckets out.1 ≡ buckets db
  duplicate-same log db out none h = let same : out.1 ≡ db = cc h in ap buckets same
  duplicate-same log db out (some k) h = >>=-cases (log_event prim k log db) _ h λ r el done.
      let same : out.1 ≡ r.1 = cc done in
      ap buckets same ∙ logged-same log db r.0 r.1 (log_event-IsLogged prim k log db r.1 r.0 el)

-- What becomes of the entry, by the decision: an escrow for the same reason writes nothing, one for
-- another reason moves the entry to the bucket of that reason, and any other decision takes it out.
abbrev pub Settles :
    EscrowKind → String → Option ℕ → String → KeverDecision → Baser → Baser → Type 0
Settles kind pre on said (kever_accept t cues) after db' = IsOut kind pre on said db'
Settles kind pre on said (kever_duplicate d log) after db' = IsOut kind pre on said db'
Settles kind pre on said (kever_reject code) after db' = IsOut kind pre on said db'
Settles kind pre on said (kever_escrow reason instruction cues) after db' =
    (reason ≡ kind → db' ≡ after)
    × (reason ≢ kind
        → IsOut kind pre on said db'
          × ((sn : ℕ) × (instruction.sn ≡ some sn)
              × IsIn reason instruction.pre sn instruction.said db'))

-- The event is read back and decided again, with no bucket changed.
pub record IsDecided (prim : Primitives) (local : Bool) (kind : EscrowKind) (pre : String)
    (on : Option ℕ) (said : String) (envelope : KeverEventEnvelope) (db between db' : Baser)
    : Type 0 where
  pub decision : KeverDecision
  pub after : Baser
  pub decided : decide_event prim local envelope between ≡ ok (decision, after)
  pub same_buckets : buckets after ≡ buckets db
  pub settled : Settles kind pre on said decision after db'

-- An event that is no longer stored loses its entry.
abbrev pub Outcome :
    Primitives
    → Bool
    → EscrowKind
    → String
    → Option ℕ
    → String
    → Baser
    → Baser
    → Baser
    → Option KeverEventEnvelope
    → Type 0
Outcome prim local kind pre on said db between db' none = IsOut kind pre on said db'
Outcome prim local kind pre on said db between db' (some envelope) =
    IsDecided prim local kind pre on said envelope db between db'

-- What was read back, and what became of it.
pub record IsReplayed (prim : Primitives) (local : Bool) (kind : EscrowKind) (pre : String)
    (on : Option ℕ) (said : String) (db db' : Baser) : Type 0 where
  pub found : Option KeverEventEnvelope
  pub between : Baser
  pub read : rehydrate_escrow_envelope prim kind pre said db ≡ ok (found, between)
  pub outcome : Outcome prim local kind pre on said db between db' found

module _ (prim : Primitives) (kind : EscrowKind) (pre : String) (on : Option ℕ)
    (said : String) where
  abbrev removed : Baser → Baser
  removed db = remove_escrow kind pre on said db

  after_removal : (db db' : Baser) → buckets db' ≡ buckets (removed db) → IsOut kind pre on said db'
  after_removal db db' same =
      same-IsOut kind pre on said (removed db) db' same (removed-IsOut kind pre on said db)

  moved-IsOut :
      (serder : Serder) (reason : EscrowKind) (instruction : EscrowInstruction)
      (cues : List AgentCue) (db : Baser) (r : Pushed × Baser)
      → IsAbout serder (kever_escrow reason instruction cues)
      → same_kind reason kind ≡ false
      → apply_decision prim (kever_escrow reason instruction cues) (removed db) ≡ ok r
      → IsOut kind pre on said r.1
        × ((sn : ℕ) × (instruction.sn ≡ some sn)
            × IsIn reason instruction.pre sn instruction.said r.1)
  unfolding apply_decision
  moved-IsOut serder reason instruction cues db r about other h =
      >>=-cases (persist_escrow_instruction prim instruction (removed db)) _ h λ m em done.
        let (key, sn, numbered, same) = persisted-written prim instruction (removed db) m em in
        let same_end : m.1 ≡ r.1 = cc done in
        let material : Baser = escrow_material prim key instruction.log (removed db) in
        (
          subst (IsOut kind pre on said) (same ∙ same_end) (
              entered-IsOut instruction.escrow kind pre on said material instruction.pre sn
                instruction.said (ap (λ k. same_kind k kind) about.same_reason ∙ other)
                (after_removal db material (material-same prim key instruction.log (removed db)))),
          (
            sn,
            numbered,
            subst (IsIn reason instruction.pre sn instruction.said) (same ∙ same_end) (
                subst
                  (λ k.
                    IsIn k instruction.pre sn instruction.said (
                      enter_bucket instruction.escrow instruction.pre sn instruction.said material))
                  about.same_reason
                  (entered-IsIn instruction.escrow instruction.pre sn instruction.said material)),
          ),
        )

  conclude-Settles :
      (serder : Serder) (d : KeverDecision) (db db' : Baser) (out : Option Pushed)
      → IsAbout serder d
      → conclude_replay prim kind pre on said d db ≡ ok (out, db')
      → Settles kind pre on said d db db'
  unfolding conclude_replay apply_decision
  conclude-Settles serder (kever_accept t cues) db db' out about h =
      >>=-cases (apply_decision prim (kever_accept t cues) (removed db)) _ h λ r er done.
        let same : db' ≡ r.1 = cc done in
        after_removal db db' (
          ap buckets same
          ∙ accepted-same prim t (removed db) r.1
              (apply_accept-IsApplied prim t cues (removed db) r.1 r.0 er))
  conclude-Settles serder (kever_duplicate reason none) db db' out about h =
      let same : db' ≡ removed db = cc h in after_removal db db' (ap buckets same)
  conclude-Settles serder (kever_duplicate reason (some log)) db db' out about h =
      >>=-cases (apply_decision prim (kever_duplicate reason (some log)) (removed db)) _ h
        λ r er done.
          let same : db' ≡ r.1 = cc done in
          after_removal db db' (
            ap buckets same
            ∙ duplicate-same prim log (removed db) r
                (lookup (or_else log.serder.pre "") (removed db).kevers) er)
  conclude-Settles serder (kever_reject code) db db' out about h =
      let same : db' ≡ removed db = cc h in after_removal db db' (ap buckets same)
  conclude-Settles serder (kever_escrow reason instruction cues) db db' out about h =
      elim (Bool-cases (same_kind reason kind)) [
        | inl stays ↦
            let done : ◌≡◌ {A = Step (Option Pushed)} (ok (none, db)) (ok (out, db')) =
              rw stays at h in
            (λ e. cc done, λ differ. absurd (differ ((same_kind_iff reason kind).0 stays)))
        | inr other ↦
            let moved : (apply_decision prim (kever_escrow reason instruction cues) (removed db)
                  >>= λ r. ok (some r.0, r.1))
                ≡ ok (out, db') =
              rw other at h in
            (
              λ e. absurd (ground (arith, other, (same_kind_iff reason kind).1 e)),
              λ differ.
                  >>=-cases
                    (apply_decision prim (kever_escrow reason instruction cues) (removed db)) _
                    moved
                    λ r er done.
                      let same : r.1 ≡ db' = cc done in
                      subst
                        (λ (x : Baser).
                          IsOut kind pre on said x
                          × ((sn : ℕ) × (instruction.sn ≡ some sn)
                              × IsIn reason instruction.pre sn instruction.said x))
                        same (moved-IsOut serder reason instruction cues db r about other er),
            )
      ]

-- The replay of an escrowed event, where it returns: an event that is no longer stored loses its
-- entry. Otherwise it is decided again, with no bucket changed. Where it is accepted, a duplicate or
-- rejected, its entry is out of its bucket; where it is escrowed for the same reason, nothing more is
-- written, so that the entry stays; where it is escrowed for another reason, the entry is out of its
-- bucket and the event is in the bucket of that reason.
pub replay_escrow_entry-IsReplayed :
    (prim : Primitives) (local : Bool) (kind : EscrowKind) (pre : String) (on : Option ℕ)
    (said : String) (db db' : Baser) (out : Option Pushed)
    → replay_escrow_entry prim local kind pre on said db ≡ ok (out, db')
    → IsReplayed prim local kind pre on said db db'
unfolding replay_escrow_entry replay_rehydrated
replay_escrow_entry-IsReplayed prim local kind pre on said db db' out h =
    >>=-cases (rehydrate_escrow_envelope prim kind pre said db) _ h
      λ r er h1. rehydrated r.0 r.1 er h1
  where
    rehydrated :
        (found : Option KeverEventEnvelope) (between : Baser)
        → rehydrate_escrow_envelope prim kind pre said db ≡ ok (found, between)
        → replay_rehydrated prim local kind pre on said (found, between) ≡ ok (out, db')
        → IsReplayed prim local kind pre on said db db'
    rehydrated none between er h1 =
        let same : remove_escrow kind pre on said between ≡ db' = cc h1 in
        record {
          found = none;
          between = between;
          read = er;
          outcome = subst (IsOut kind pre on said) same (removed-IsOut kind pre on said between);
        }
    rehydrated (some envelope) between er h1 =
        >>=-cases (decide_event prim local envelope between) _ h1 λ d ed h2.
          let read_quiet : IsQuiet db between =
            rehydrate-Quiet prim kind pre said db (some envelope, between) er in
          let quiet : IsQuiet between d.1 =
            decide_event-IsQuiet prim local envelope between d.1 d.0 ed in
          record {
            found = some envelope;
            between = between;
            read = er;
            outcome = record {
              decision = d.0;
              after = d.1;
              decided = ed;
              same_buckets = ap buckets quiet.same ∙ ap buckets read_quiet.same;
              settled =
                  conclude-Settles prim kind pre on said envelope.serder d.0 d.1 db' out
                    (decide_event-IsAbout prim local envelope between d.1 d.0 ed) h2;
            };
          }
