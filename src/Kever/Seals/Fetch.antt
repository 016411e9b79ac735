-- ===== src/Kever/Seals/Fetch.antt =====
-- packages/keri/src/core/kever.ts: `searchDelegatingEvent` and `fetchDelegatingEvent`, which find the
-- event of the delegator that seals a delegated one, and keep the stored hint in order.
use keri_ts.Prelude.{
  ℕ, Bool, true, false, Option, none, some, List, [], ◌∷◌, String, ltb, if◌then◌else◌,
}
use keri_ts.Prelude.Sets.{string_eq}
use keri_ts.Prelude.Maps.{lookup, dg_key_eq}
use keri_ts.Event.{Serder, SourceSeal}
use keri_ts.Kever.{KelItem, Baser}
use keri_ts.Kever.Store.{get_evt_serder, get_all_items, get_kel_items}
use keri_ts.Kever.Seals.{
  DelegatingEventLookup, delegating_lookup, accepted_source_seal_for_event,
  drop_accepted_source_seal, repair_accepted_source_seal, lookup_accepted_delegating_event,
  lookup_authoritative_delegating_event,
}

-- The best so far, with its first-seen ordinal.
abbrev pub Best : Type 0
Best = Option (DelegatingEventLookup × ℕ)

unfoldable pub better : Best → DelegatingEventLookup → ℕ → Best
better none found fn = some (found, fn)
better (some (best, best_fn)) found fn =
    if ltb best_fn fn then some (found, fn) else some (best, best_fn)

-- One turn of the walk over the accepted history.
unfoldable pub consider : Baser → String → Serder → Best → KelItem → Best
unfolding better delegating_lookup
consider db delpre serder best item = elim (lookup (delpre, item.said) db.fons) [
  | none ↦ best
  | some fn ↦ elim (delegating_lookup (get_evt_serder db delpre item.said) serder) [
    | none ↦ best
    | some found ↦ better best found fn
  ]
]

unfoldable pub search_history : Baser → String → Serder → Best → List KelItem → Best
unfolding consider
search_history db delpre serder best [] = best
search_history db delpre serder best (item ∷ items) =
    search_history db delpre serder (consider db delpre serder best item) items

-- The walk over the authoritative branch: the last match wins.
unfoldable pub search_branch :
    Baser
    → String
    → Serder
    → Option DelegatingEventLookup
    → List KelItem
    → Option DelegatingEventLookup
unfolding delegating_lookup
search_branch db delpre serder best [] = best
search_branch db delpre serder best (item ∷ items) =
    elim (delegating_lookup (get_evt_serder db delpre item.said) serder) [
      | none ↦ search_branch db delpre serder best items
      | some found ↦ search_branch db delpre serder (some found) items
    ]

abbrev pub best_lookup : Best → Option DelegatingEventLookup
best_lookup none = none
best_lookup (some (best, _)) = some best

-- `searchDelegatingEvent`
unfoldable pub search_delegating_event :
    Baser → String → Serder → Bool → Option DelegatingEventLookup
unfolding search_history search_branch
search_delegating_event db delpre serder original =
    if original
    then best_lookup (search_history db delpre serder none (get_all_items db.kels delpre))
    else search_branch db delpre serder none (get_kel_items db delpre)

-- The eager search, and the repair of what it finds.
unfoldable pub search_and_repair :
    Baser → String → Serder → Bool → Bool → Option DelegatingEventLookup × Baser
unfolding search_delegating_event repair_accepted_source_seal
search_and_repair db delpre serder original eager =
    if eager
    then elim (search_delegating_event db delpre serder original) [
      | none ↦ (none, db)
      | some found ↦ (some found, repair_accepted_source_seal db serder found)
    ]
    else (none, db)

-- `fetchDelegatingEvent` with `original: true`
unfoldable pub fetch_original :
    Baser → String → Serder → Bool → Option DelegatingEventLookup × Baser
unfolding search_and_repair lookup_accepted_delegating_event drop_accepted_source_seal
fetch_original db delpre serder eager = elim (accepted_source_seal_for_event db serder) [
  | none ↦ search_and_repair db delpre serder true eager
  | some stored ↦ elim (lookup_accepted_delegating_event db delpre stored serder) [
    | some exact ↦ (some exact, db)
    | none ↦ search_and_repair (drop_accepted_source_seal db serder) delpre serder true eager
  ]
]

-- A hint that names an authoritative event.
unfoldable pub hinted : Baser → String → Option SourceSeal → Serder → Option DelegatingEventLookup
unfolding lookup_authoritative_delegating_event
hinted db delpre none serder = none
hinted db delpre (some seal) serder = lookup_authoritative_delegating_event db delpre seal serder

-- `fetchDelegatingEvent` with `original: false`
unfoldable pub fetch_current :
    Baser → String → Serder → Option SourceSeal → Bool → Option DelegatingEventLookup × Baser
unfolding search_and_repair hinted
fetch_current db delpre serder source_seal eager = elim (hinted db delpre source_seal serder) [
  | some found ↦ (some found, db)
  | none ↦ elim (hinted db delpre (accepted_source_seal_for_event db serder) serder) [
    | some found ↦ (some found, repair_accepted_source_seal db serder found)
    | none ↦ search_and_repair db delpre serder false eager
  ]
]
