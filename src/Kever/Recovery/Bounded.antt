-- ===== src/Kever/Recovery/Bounded.antt =====
-- The loop of the delegated recovery ends: a turn that climbs adds one more triple of a delegator
-- and two stored events to the visited ones, and the tables hold only so many.
use mathlib.Core.Path.{subst}
use keri_ts.Prelude.{
  ℕ, zero, suc, ◌+◌, ◌≤◌, ◌≡◌, refl, ◌∙◌, ap, true, false, Option, none, some, List, [], ◌∷◌,
  String, length, Bool-cases, inl, inr, arith, eq_iff,
}
use keri_ts.Prelude.Sets.{string_eq, has, IsUnique}
use keri_ts.Prelude.Maps.{dg_key_eq}
use keri_ts.Prelude.Pigeonhole.{length-le-subset, has-triples}
use keri_ts.Prelude.Result.{ok}
use keri_ts.Kever.{Kever, Baser}
use keri_ts.Kever.Store.{Step}
use keri_ts.Kever.Inputs.{AttachmentValidationInput}
use keri_ts.Kever.Seals.{DelegatingEventLookup}
use keri_ts.Kever.Seals.Fetch.{fetch_current, fetch_original}
use keri_ts.Kever.Seals.Repaired.{
  IsRepaired, fetch_current-IsRepaired, fetch_original-IsRepaired, IsStored, fetch_current-IsStored,
  fetch_original-IsStored,
}
use keri_ts.Kever.Recovery.{
  CycleKey, Verdict, supersedes, refused, climb, same_cycle, same_cycle_iff, cycle_key,
  cycle_key_eq, recovery_verdict, NextTurn, climb_original, climb_candidate, after_verdict,
  validate_delegated_recovery, recovery_fuel,
}
use keri_ts.Kever.Recovery.Superseding.{verdict-sn, compare-climb}
use keri_ts.Kever.Recovery.Visited.{
  said_text, delegators, saids, SameTables, stored-has-said, same-IsStored, repaired-SameTables,
  delegator-known, cycle-fresh, within, length-within,
}

-- The step returns: it does not run out of fuel, nor throw.
abbrev pub Returns : {A : Type 0} → Step A → Type 0
Returns {A} step = (r : A × Baser) × (step ≡ ok r)

slack :
    (base : Baser) (said : String)
    → has said (saids base) ≡ true
    → has said ("" ∷ saids base) ≡ true
unfolding has
slack base said h = ground (arith, h)

first-has : (delpre : String) (ds : List String) → has delpre (delpre ∷ ds) ≡ true
unfolding has
first-has delpre ds = ground (arith, (eq_iff delpre delpre).1 refl)

nil-has : (key : CycleKey) → has key [] ≡ true → (P : Type 0) → P
unfolding has
nil-has key h P = absurd (cc h)

has-cons-cases :
    {P : Type 0} (key new : CycleKey) (visited : List CycleKey)
    → has key (new ∷ visited) ≡ true
    → (key ≡ new → P)
    → (has key visited ≡ true → P)
    → P
unfolding has
has-cons-cases key new visited h here there = elim (Bool-cases (same_cycle key new)) [
  | inl same ↦ here ((same_cycle_iff key new).0 same)
  | inr other ↦ there (ground (arith, other, h))
]

module _ (k : Kever) (input : AttachmentValidationInput) (base : Baser) (first : String) where
  -- What a turn of the loop is given.
  record IsTurn (db : Baser) (delpre : String) (c o : DelegatingEventLookup) : Type 0 where
    tables : SameTables base db
    delegator : has delpre (first ∷ delegators base) ≡ true
    candidate : IsStored base c
    original : IsStored base o

  turn-within :
      (db : Baser) (delpre : String) (c o : DelegatingEventLookup)
      → IsTurn db delpre c o
      → has (cycle_key delpre c o) (within base first) ≡ true
  unfolding within cycle_key
  turn-within db delpre c o t =
      has-triples delpre (said_text c.serder) (said_text o.serder) (first ∷ delegators base)
        ("" ∷ saids base) ("" ∷ saids base) t.delegator
        (slack base (said_text c.serder) (stored-has-said base c t.candidate))
        (slack base (said_text o.serder) (stored-has-said base o t.original))

  module _ (turn : NextTurn) (db : Baser) (c o : DelegatingEventLookup)
      (works : (db' : Baser) (next : String) (c' o' : DelegatingEventLookup)
        → IsTurn db' next c' o'
        → Returns (turn db' next c' o')) where
    original-Returns :
        (next : String) (db' : Baser) (c' : DelegatingEventLookup)
        (found : Option DelegatingEventLookup × Baser)
        → SameTables base db'
        → has next (first ∷ delegators base) ≡ true
        → IsStored base c'
        → fetch_original db' next o.serder input.eager ≡ found
        → Returns (climb_original turn k input next c' found)
    unfolding climb_original
    original-Returns next db' c' (none, db'') tables known stored e = (_, refl)
    original-Returns next db' c' (some o', db'') tables known stored e =
        works db'' next c' o' (record {
          tables = repaired-SameTables base db' db'' tables (
              subst (IsRepaired db') (ap (λ (x : Option DelegatingEventLookup × Baser). x.1) e)
                (fetch_original-IsRepaired db' next o.serder input.eager));
          delegator = known;
          candidate = stored;
          original = same-IsStored base db' o' tables (
              fetch_original-IsStored db' next o.serder input.eager o'
                (ap (λ (x : Option DelegatingEventLookup × Baser). x.0) e));
        })

    candidate-Returns :
        (next : String) (found : Option DelegatingEventLookup × Baser)
        → SameTables base db
        → has next (first ∷ delegators base) ≡ true
        → fetch_current db next c.serder none input.eager ≡ found
        → Returns (climb_candidate turn k input next o found)
    unfolding climb_candidate
    candidate-Returns next (none, db') tables known e = (_, refl)
    candidate-Returns next (some c', db') tables known e =
        original-Returns next db' c' (fetch_original db' next o.serder input.eager)
          (repaired-SameTables base db db' tables (
            subst (IsRepaired db) (ap (λ (x : Option DelegatingEventLookup × Baser). x.1) e)
              (fetch_current-IsRepaired db next c.serder none input.eager)))
          known
          (same-IsStored base db c' tables (
            fetch_current-IsStored db next c.serder none input.eager c'
              (ap (λ (x : Option DelegatingEventLookup × Baser). x.0) e)))
          refl

  -- A climb goes to a delegator of the tables.
  climb-known :
      (db : Baser) (visited : List CycleKey) (delpre : String) (c o : DelegatingEventLookup)
      (next : String)
      → IsTurn db delpre c o
      → recovery_verdict db visited delpre c o ≡ climb next
      → has next (first ∷ delegators base) ≡ true
  unfolding has
  climb-known db visited delpre c o next t e =
      elim (verdict-sn db visited delpre c o (climb next) e) [
        | inl wrong ↦ absurd (cc wrong)
        | inr (cn, on, ec, eo, compared) ↦ ground (
          arith,
          delegator-known base db c next t.tables t.candidate
              (compare-climb input.eager db c o cn on ec eo next compared).0,
        )
      ]

  verdict-Returns :
      (db : Baser) (visited : List CycleKey) (delpre : String) (c o : DelegatingEventLookup)
      (turn : NextTurn)
      → IsTurn db delpre c o
      → (has (cycle_key delpre c o) visited ≡ false
          → (db' : Baser) (next : String) (c' o' : DelegatingEventLookup) → IsTurn db' next c' o'
          → Returns (turn db' next c' o'))
      → (v : Verdict) → recovery_verdict db visited delpre c o ≡ v
      → Returns (after_verdict turn k input db c o v)
  unfolding after_verdict
  verdict-Returns db visited delpre c o turn t works supersedes e = (_, refl)
  verdict-Returns db visited delpre c o turn t works refused e = (_, refl)
  verdict-Returns db visited delpre c o turn t works (climb next) e =
      candidate-Returns turn db c o (works (cycle-fresh db visited delpre c o next e)) next
        (fetch_current db next c.serder none input.eager) t.tables
        (climb-known db visited delpre c o next t e) refl

  -- Enough fuel: more than the triples that are not visited.
  recovery-Returns :
      (fuel : ℕ) (db : Baser) (visited : List CycleKey) (delpre : String)
      (c o : DelegatingEventLookup)
      → IsTurn db delpre c o
      → IsUnique visited
      → ((key : CycleKey) → has key visited ≡ true → has key (within base first) ≡ true)
      → suc (length (within base first)) ≤ length visited + fuel
      → Returns (validate_delegated_recovery fuel k input db visited delpre c o)
  unfolding validate_delegated_recovery
  recovery-Returns zero db visited delpre c o t unique inside enough =
      absurd (ground (arith, length-le-subset visited (within base first) unique inside, enough))
  recovery-Returns (suc fuel) db visited delpre c o t unique inside enough =
      verdict-Returns db visited delpre c o
        (λ db' next c' o'.
          validate_delegated_recovery fuel k input db' (cycle_key delpre c o ∷ visited) next c' o')
        t
        (λ fresh db' next c' o' t'.
          recovery-Returns fuel db' (cycle_key delpre c o ∷ visited) next c' o' t' (fresh, unique)
            inside' (omega (arith, enough)))
        (recovery_verdict db visited delpre c o) refl
    where
      inside' :
          (key : CycleKey)
          → has key (cycle_key delpre c o ∷ visited) ≡ true
          → has key (within base first) ≡ true
      inside' key h =
          has-cons-cases key (cycle_key delpre c o) visited h
            (λ same.
              ap (λ (x : CycleKey). has x (within base first)) same ∙ turn-within db delpre c o t)
            (inside key)

-- The loop from the start, on fuel by the size of the tables.
pub validate_delegated_recovery-Returns :
    (k : Kever) (input : AttachmentValidationInput) (db : Baser) (delpre : String)
    (c o : DelegatingEventLookup)
    → IsStored db c
    → IsStored db o
    → Returns (validate_delegated_recovery (recovery_fuel db) k input db [] delpre c o)
unfolding recovery_fuel
validate_delegated_recovery-Returns k input db delpre c o candidate original =
    recovery-Returns k input db delpre (recovery_fuel db) db [] delpre c o
      (record {
        tables = (refl, refl);
        delegator = first_there;
        candidate = candidate;
        original = original;
      })
      tt (λ key h. nil-has key h (has key (within db delpre) ≡ true))
      (omega (arith, length-within db delpre))
  where
    first_there : has delpre (delpre ∷ delegators db) ≡ true
    first_there = first-has delpre (delegators db)
