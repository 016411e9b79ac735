-- ===== src/Kever/Recovery/Superseding.antt =====
-- When a delegated recovery supersedes: the rules, as a relation on the two delegating events.
use keri_ts.Prelude.{
  ℕ, zero, suc, ◌<◌, ◌≡◌, refl, sym, ◌∙◌, ap, Bool, true, ◌&&◌, Option, none, some, List, ◌∷◌,
  String, ltb, ◌==◌, ◌⊎◌, ◌≢◌, if◌then◌else◌, past, eq_iff, same_text, Bool-cases, Option-cases,
  inl, inr, arith,
}
use keri_ts.Prelude.Sets.{string_eq, has}
use keri_ts.Prelude.Result.{ok}
use keri_ts.Kever.{Kever, Baser}
use keri_ts.Kever.Inputs.{AttachmentValidationInput}
use keri_ts.Kever.Seals.{DelegatingEventLookup, delegator_pre_for_event}
use keri_ts.Kever.Seals.Fetch.{fetch_current, fetch_original}
use keri_ts.Kever.Recovery.{
  CycleKey, Verdict, supersedes, refused, climb, rotates_over, upstream, compare_bosses, cycle_key,
  cycle_key_eq, recovery_verdict, NextTurn, climb_original, climb_candidate, after_verdict,
  validate_delegated_recovery,
}

-- The candidate's delegating event over the accepted one's: a later number; a rotation over an
-- interaction at one number; a later seal of one event; or, of two events of one delegated
-- delegator, their own delegating events in turn.
pub data Supersedes (eager : Bool)
    : Baser → DelegatingEventLookup → DelegatingEventLookup → Type 0 where
  later_number :
      (db : Baser) (c o : DelegatingEventLookup) (cn on : ℕ)
      → c.serder.sn ≡ some cn
      → o.serder.sn ≡ some on
      → on < cn
      → Supersedes eager db c o
  rotation_over :
      (db : Baser) (c o : DelegatingEventLookup) (n : ℕ)
      → c.serder.sn ≡ some n
      → o.serder.sn ≡ some n
      → rotates_over c o ≡ true
      → Supersedes eager db c o
  later_seal :
      (db : Baser) (c o : DelegatingEventLookup)
      → same_text c.serder.said o.serder.said ≡ true
      → o.seal_index < c.seal_index
      → Supersedes eager db c o
  by_delegator :
      (db db' db'' : Baser) (c o c' o' : DelegatingEventLookup) (next : String)
      → delegator_pre_for_event db c.serder ≡ some next
      → delegator_pre_for_event db o.serder ≡ some next
      → fetch_current db next c.serder none eager ≡ (some c', db')
      → fetch_original db' next o.serder eager ≡ (some o', db'')
      → Supersedes eager db'' c' o'
      → Supersedes eager db c o

module _ (db : Baser) (visited : List CycleKey) (delpre : String)
    (c o : DelegatingEventLookup) where
  pub verdict-sn :
      (v : Verdict)
      → recovery_verdict db visited delpre c o ≡ v
      → (v ≡ refused)
        ⊎ ((cn : ℕ) × (on : ℕ) × (c.serder.sn ≡ some cn)
            × (o.serder.sn ≡ some on)
            × (compare_bosses db c o cn on ≡ v))
  unfolding recovery_verdict
  verdict-sn v h = elim (Option-cases c.serder.sn) [
    | inl missing ↦ inl (ground (arith, missing, h))
    | inr (cn, ec) ↦ elim (Option-cases o.serder.sn) [
      | inl missing ↦ inl (ground (arith, ec, missing, h))
      | inr (on, eo) ↦ elim (Bool-cases (has (cycle_key delpre c o) visited)) [
        | inl cycle ↦ inl (ground (arith, ec, eo, cycle, h))
        | inr fresh ↦ inr (cn, on, ec, eo, ground (arith, ec, eo, fresh, h))
      ]
    ]
  ]

upstream-not : (a b : Option String) → upstream a b ≢ supersedes
unfolding upstream
upstream-not none b h = cc h
upstream-not (some a) none h = cc h
upstream-not (some a) (some b) h = elim (Bool-cases (string_eq.beq a b)) [
  | inl same ↦ absurd (ground (arith, same, h))
  | inr differs ↦ absurd (ground (arith, differs, h))
]

upstream-climb :
    (a b : Option String) (next : String)
    → upstream a b ≡ climb next
    → (a ≡ some next) × (b ≡ some next)
unfolding upstream
upstream-climb none b next h = absurd (cc h)
upstream-climb (some a) none next h = absurd (cc h)
upstream-climb (some a) (some b) next h = elim (Bool-cases (string_eq.beq a b)) [
  | inl same ↦
      let at : climb a ≡ climb next = ground (arith, same, h) in
      let e : a ≡ next = cc at in (ap some e, ap some (sym ((eq_iff a b).0 same) ∙ e))
  | inr differs ↦ absurd (ground (arith, differs, h))
]

module _ (eager : Bool) (db : Baser) (c o : DelegatingEventLookup) (cn on : ℕ)
    (ec : c.serder.sn ≡ some cn) (eo : o.serder.sn ≡ some on) where
  compare-Supersedes : compare_bosses db c o cn on ≡ supersedes → Supersedes eager db c o
  unfolding compare_bosses
  compare-Supersedes h = elim (Bool-cases (ltb on cn)) [
    | inl later ↦ later_number db c o cn on ec eo (ground (arith, later))
    | inr r1 ↦ elim (Bool-cases (cn == on && rotates_over c o)) [
      | inl rotated ↦
          rotation_over db c o cn ec (eo ∙ ap some (ground (arith, rotated)))
            (ground (arith, rotated))
      | inr r2 ↦ elim (Bool-cases (same_text c.serder.said o.serder.said)) [
        | inl one ↦ later_seal db c o one (ground (arith, r1, r2, one, h))
        | inr two ↦ absurd (
            upstream-not (delegator_pre_for_event db c.serder) (delegator_pre_for_event db o.serder)
              (ground (arith, r1, r2, two, h)))
      ]
    ]
  ]

  pub compare-climb :
      (next : String)
      → compare_bosses db c o cn on ≡ climb next
      → (delegator_pre_for_event db c.serder ≡ some next)
        × (delegator_pre_for_event db o.serder ≡ some next)
  unfolding compare_bosses
  compare-climb next h =
      past (ltb on cn) h (λ e. absurd (cc e))
        λ r1 h1.
          past (cn == on && rotates_over c o) h1 (λ e. absurd (cc e))
            λ r2 h2.
              past (same_text c.serder.said o.serder.said) h2 (λ e. seal_no_climb next e)
                λ r3 h3.
                  upstream-climb (delegator_pre_for_event db c.serder)
                    (delegator_pre_for_event db o.serder) next h3
    where
      seal_no_climb :
          (next : String)
          → (if ltb o.seal_index c.seal_index then supersedes else refused) ≡ climb next
          → (delegator_pre_for_event db c.serder ≡ some next)
            × (delegator_pre_for_event db o.serder ≡ some next)
      seal_no_climb next e =
          past (ltb o.seal_index c.seal_index) e (λ f. absurd (cc f)) λ r f. absurd (cc f)

module _ (turn : NextTurn) (k : Kever) (input : AttachmentValidationInput) (db' : Baser)
    (works : (db : Baser) (next : String) (c o : DelegatingEventLookup)
      → turn db next c o ≡ ok (none, db')
      → Supersedes input.eager db c o) where
  original-Supersedes :
      (next : String) (db1 : Baser) (o c' : DelegatingEventLookup)
      (found : Option DelegatingEventLookup × Baser)
      → fetch_original db1 next o.serder input.eager ≡ found
      → climb_original turn k input next c' found ≡ ok (none, db')
      → (o' : DelegatingEventLookup) × (db2 : Baser) × (fetch_original db1 next o.serder input.eager
          ≡ (some o', db2))
        × Supersedes input.eager db2 c' o'
  unfolding climb_original
  original-Supersedes next db1 o c' (none, db2) e h = absurd (cc h)
  original-Supersedes next db1 o c' (some o', db2) e h = (o', db2, e, works db2 next c' o' h)

  candidate-Supersedes :
      (db : Baser) (next : String) (c o : DelegatingEventLookup)
      (found : Option DelegatingEventLookup × Baser)
      → delegator_pre_for_event db c.serder ≡ some next
      → delegator_pre_for_event db o.serder ≡ some next
      → fetch_current db next c.serder none input.eager ≡ found
      → climb_candidate turn k input next o found ≡ ok (none, db')
      → Supersedes input.eager db c o
  unfolding climb_candidate
  candidate-Supersedes db next c o (none, db1) pc po e h = absurd (cc h)
  candidate-Supersedes db next c o (some c', db1) pc po e h =
      let (o', db2, e', above) =
        original-Supersedes next db1 o c' (fetch_original db1 next o.serder input.eager) refl h in
      by_delegator db db1 db2 c o c' o' next pc po e e' above

  verdict-Supersedes :
      (db : Baser) (visited : List CycleKey) (delpre : String) (c o : DelegatingEventLookup)
      (v : Verdict)
      → recovery_verdict db visited delpre c o ≡ v
      → after_verdict turn k input db c o v ≡ ok (none, db')
      → Supersedes input.eager db c o
  unfolding after_verdict
  verdict-Supersedes db visited delpre c o refused e h = absurd (cc h)
  verdict-Supersedes db visited delpre c o supersedes e h =
      elim (verdict-sn db visited delpre c o supersedes e) [
        | inl wrong ↦ absurd (cc wrong)
        | inr (cn, on, ec, eo, rule) ↦ compare-Supersedes input.eager db c o cn on ec eo rule
      ]
  verdict-Supersedes db visited delpre c o (climb next) e h =
      elim (verdict-sn db visited delpre c o (climb next) e) [
        | inl wrong ↦ absurd (cc wrong)
        | inr (cn, on, ec, eo, rule) ↦
            let (pc, po) = compare-climb input.eager db c o cn on ec eo next rule in
            candidate-Supersedes db next c o (fetch_current db next c.serder none input.eager) pc po
              refl h
      ]

-- Where `validateDelegatedRecovery` finds no fault, the candidate's delegating event supersedes that
-- of the accepted event by one of the rules, after climbing both chains of delegators as far as
-- need be.
pub recovery-Supersedes :
    (k : Kever) (input : AttachmentValidationInput) (fuel : ℕ) (db db' : Baser)
    (visited : List CycleKey) (delpre : String) (c o : DelegatingEventLookup)
    → validate_delegated_recovery fuel k input db visited delpre c o ≡ ok (none, db')
    → Supersedes input.eager db c o
unfolding validate_delegated_recovery
recovery-Supersedes k input zero db db' visited delpre c o h = absurd (cc h)
recovery-Supersedes k input (suc fuel) db db' visited delpre c o h =
    verdict-Supersedes
      (λ db1 next c' o'.
        validate_delegated_recovery fuel k input db1 (cycle_key delpre c o ∷ visited) next c' o')
      k input db'
      (λ db1 next c' o' h1.
        recovery-Supersedes k input fuel db1 db' (cycle_key delpre c o ∷ visited) next c' o' h1)
      db visited delpre c o (recovery_verdict db visited delpre c o) refl h
