-- ===== src/Kever/Recovery/Visited.antt =====
-- What the loop of the delegated recovery can visit: a delegator that the tables hold, with two
-- stored events.
use keri_ts.Prelude.{
  ◌+◌, ◌*◌, ◌≡◌, refl, sym, ◌∙◌, ap, true, false, ◌&&◌, some, List, ◌∷◌, ◌++◌, map, String, length,
  length-append, truthy, non_empty, non_empty-eq, equals, ◌⊎◌, or_else, Bool-cases, Option-cases,
  inl, inr, arith,
}
use keri_ts.Prelude.Sets.{string_eq, has, has-append}
use keri_ts.Prelude.Maps.{DgKey, lookup, dg_key_eq, has-lookup}
use keri_ts.Prelude.Pigeonhole.{length-map, triples, length-triples}
use keri_ts.Event.{Serder, KeyStateRecord}
use keri_ts.Kever.{Baser}
use keri_ts.Kever.Seals.{DelegatingEventLookup, delegator_pre_for_event, state_delegator}
use keri_ts.Kever.Seals.Repaired.{IsRepaired, IsStored}
use keri_ts.Kever.Recovery.{CycleKey, climb, cycle_key, cycle_key_eq, recovery_verdict}

abbrev pub said_text : Serder → String
said_text serder = or_else serder.said ""

-- The delegators and the digests that the tables hold.
unfoldable pub delegators : Baser → List String
delegators db =
    map (λ entry. or_else entry.1.delpre "") db.evts
    ++ map (λ entry. or_else entry.1.di "") db.states

unfoldable pub saids : Baser → List String
saids db = map (λ entry. said_text entry.1) db.evts

-- The event and state tables are the same.
abbrev pub SameTables : Baser → Baser → Type 0
SameTables base db = (db.evts ≡ base.evts) × (db.states ≡ base.states)

pub repaired-SameTables :
    (base db db' : Baser) → SameTables base db → IsRepaired db db' → SameTables base db'
repaired-SameTables base db db' (e, s) r =
    (ap (λ (x : Baser). x.evts) r.same ∙ e, ap (λ (x : Baser). x.states) r.same ∙ s)

pub same-IsStored :
    (base db : Baser) (l : DelegatingEventLookup)
    → SameTables base db
    → IsStored db l
    → IsStored base l
same-IsStored base db l (e, s) (key, there) = (key, ap (lookup key) (sym e) ∙ there)

pub stored-has-said :
    (base : Baser) (l : DelegatingEventLookup)
    → IsStored base l
    → has (said_text l.serder) (saids base) ≡ true
unfolding saids
stored-has-said base l (key, there) =
    has-lookup (λ serder. said_text serder) key l.serder base.evts there

-- The delegator comes from the event, or from the stored state.
delegator-cases :
    (db : Baser) (serder : Serder) (next : String)
    → delegator_pre_for_event db serder ≡ some next
    → (serder.delpre ≡ some next)
      ⊎ ((pre : String) × (state : KeyStateRecord) × (lookup pre db.states ≡ some state)
          × (state.di ≡ some next))
unfolding delegator_pre_for_event state_delegator
delegator-cases db serder next h = elim (Option-cases (non_empty serder.pre)) [
  | inl no_pre ↦ absurd (ground (arith, no_pre, h))
  | inr (pre, has_pre) ↦ elim (Bool-cases (equals serder.ilk "dip" && truthy serder.delpre)) [
    | inl inception ↦ inl (ground (arith, has_pre, inception, h))
    | inr later ↦ elim (Option-cases (lookup pre db.states)) [
      | inl unknown ↦ absurd (ground (arith, has_pre, later, unknown, h))
      | inr (state, known) ↦
          inr (
            pre,
            state,
            known,
            non_empty-eq state.di next (ground (arith, has_pre, later, known, h)),
          )
    ]
  ]
]

-- What follows climbs to a delegator that the tables hold.
pub delegator-known :
    (base db : Baser) (l : DelegatingEventLookup) (next : String)
    → SameTables base db
    → IsStored base l
    → delegator_pre_for_event db l.serder ≡ some next
    → has next (delegators base) ≡ true
unfolding delegators
delegator-known base db l next (e, s) (key, there) h =
    has-append next (map (λ entry. or_else entry.1.delpre "") base.evts)
      (map (λ entry. or_else entry.1.di "") base.states)
    ∙ elim (delegator-cases db l.serder next h) [
      | inl from_event ↦ ground (
        arith,
        has-lookup (λ serder. or_else serder.delpre "") key l.serder base.evts there,
        from_event,
      )
      | inr (pre, state, known, di) ↦
          let known' : lookup pre base.states ≡ some state = ap (lookup pre) (sym s) ∙ known in
          ground (arith, has-lookup (λ state. or_else state.di "") pre state base.states known', di)
    ]

pub cycle-fresh :
    (db : Baser) (visited : List CycleKey) (delpre : String) (c o : DelegatingEventLookup)
    (next : String)
    → recovery_verdict db visited delpre c o ≡ climb next
    → has (cycle_key delpre c o) visited ≡ false
unfolding recovery_verdict
cycle-fresh db visited delpre c o next h = elim (Option-cases c.serder.sn) [
  | inl missing ↦ absurd (ground (arith, missing, h))
  | inr (cn, ec) ↦ elim (Option-cases o.serder.sn) [
    | inl missing ↦ absurd (ground (arith, ec, missing, h))
    | inr (on, eo) ↦ elim (Bool-cases (has (cycle_key delpre c o) visited)) [
      | inl cycle ↦ absurd (ground (arith, ec, eo, cycle, h))
      | inr fresh ↦ fresh
    ]
  ]
]

-- The triples that the loop can visit, from a first delegator on.
unfoldable pub within : Baser → String → List CycleKey
unfolding delegators saids
within base first = triples (first ∷ delegators base) ("" ∷ saids base) ("" ∷ saids base)

length-delegators :
    (base : Baser) → length (delegators base) ≡ length base.evts + length base.states
unfolding delegators
length-delegators base =
    length-append (map (λ entry. or_else entry.1.delpre "") base.evts)
      (map (λ entry. or_else entry.1.di "") base.states)
    ∙ omega (
      arith,
      length-map (λ (entry : DgKey × Serder). or_else entry.1.delpre "") base.evts,
      length-map (λ (entry : String × KeyStateRecord). or_else entry.1.di "") base.states,
    )

pub length-within :
    (base : Baser) (first : String)
    → length (within base first)
      ≡ (1 + length base.evts + length base.states)
        * ((1 + length base.evts) * (1 + length base.evts))
unfolding within saids
length-within base first =
    let ds : length (first ∷ delegators base) ≡ 1 + length base.evts + length base.states =
      omega (arith, length-delegators base) in
    let ss : length ("" ∷ saids base) ≡ 1 + length base.evts =
      omega (arith, length-map (λ (entry : DgKey × Serder). said_text entry.1) base.evts) in
    length-triples (first ∷ delegators base) ("" ∷ saids base) ("" ∷ saids base)
    ∙ rw ds (rw ss refl)
