-- ===== src/Kever/Seals.antt =====
-- packages/keri/src/core/kever.ts: the delegating event that seals a delegated one,
-- the lookups of `fetchDelegatingEvent`. The search and the fetch itself, with their proofs, are in
-- the child modules.
pub mod Anchored
pub mod Fetch
pub mod Found
pub mod Repaired
use keri_ts.Prelude.{
  ℕ, suc, Bool, false, ◌&&◌, ◌||◌, Option, none, some, List, [], ◌∷◌, String, ◌==◌, if◌then◌else◌,
  is_some, truthy, non_empty, equals,
}
use keri_ts.Prelude.Sets.{string_eq}
use keri_ts.Prelude.Maps.{lookup, pin, rem, dg_key_eq}
use keri_ts.Event.{EventSeal, Serder, SourceSeal, KeyStateRecord}
use keri_ts.Kever.{Kever, Baser}
use keri_ts.Kever.Store.{get_evt_serder, get_last}

-- `DelegatingEventLookup`
pub record DelegatingEventLookup : Type 0 where
  pub serder : Serder
  pub source_seal : SourceSeal
  pub seal_index : ℕ

unfoldable pub seal_matches : EventSeal → Serder → Bool
seal_matches seal serder =
    equals serder.pre seal.i && equals serder.snh seal.s && equals serder.said seal.d

-- The position of the first event seal that names the event, where the source returns -1 for none. The
-- list is what `candidate.eventSeals` returns: where that getter throws, the candidate is no `Serder`.
unfoldable pub event_anchor_seal_index : List EventSeal → Serder → Option ℕ
unfolding seal_matches
event_anchor_seal_index [] serder = none
event_anchor_seal_index (seal ∷ seals) serder =
    let rest = event_anchor_seal_index seals serder in
    if seal_matches seal serder
    then some 0
    else elim rest [ none ↦ none | some index ↦ some (suc index) ]

-- `eventAnchorsSeal`
unfoldable pub event_anchors_seal : Serder → Serder → Bool
unfolding event_anchor_seal_index
event_anchors_seal candidate serder = is_some (event_anchor_seal_index candidate.event_seals serder)

unfoldable pub delegating_lookup : Option Serder → Serder → Option DelegatingEventLookup
unfolding event_anchor_seal_index
delegating_lookup none serder = none
delegating_lookup (some candidate) serder = elim candidate.sn [
  | none ↦ none
  | some sn ↦ elim (non_empty candidate.said) [
    | none ↦ none
    | some said ↦ elim (event_anchor_seal_index candidate.event_seals serder) [
      | none ↦ none
      | some index ↦ some (record {
        serder = candidate;
        source_seal = record { s = sn; d = said };
        seal_index = index;
      })
    ]
  ]
]

-- `pre && said ? dgKey(pre, said) : null`
unfoldable pub key_of : Serder → Option (String × String)
key_of serder = elim (non_empty serder.pre) [
  | none ↦ none
  | some pre ↦ elim (non_empty serder.said) [ none ↦ none | some said ↦ some (pre, said) ]
]

unfoldable pub accepted_source_seal_for_event : Baser → Serder → Option SourceSeal
unfolding key_of
accepted_source_seal_for_event db serder = elim (key_of serder) [
  | none ↦ none
  | some key ↦ lookup key db.aess
]

unfoldable pub drop_accepted_source_seal : Baser → Serder → Baser
unfolding key_of
drop_accepted_source_seal db serder = elim (key_of serder) [
  | none ↦ db
  | some key ↦ record db { aess = rem key db.aess }
]

-- Only of an event that is first-seen.
unfoldable pub repair_accepted_source_seal : Baser → Serder → DelegatingEventLookup → Baser
unfolding key_of
repair_accepted_source_seal db serder found = elim (key_of serder) [
  | none ↦ db
  | some key ↦
      if is_some (lookup key db.fons)
      then record db { aess = pin key found.source_seal db.aess }
      else db
]

-- First-seen, or the authoritative event of its sequence number.
unfoldable pub is_accepted : Baser → String → String → ℕ → Bool
is_accepted db pre said sn =
    is_some (lookup (pre, said) db.fons) || equals (get_last db.kels pre sn) said

unfoldable pub accepted_candidate : Baser → String → Serder → Bool
unfolding is_accepted
accepted_candidate db delpre candidate = elim (non_empty candidate.said) [
  | none ↦ false
  | some said ↦ elim candidate.sn [ none ↦ false | some sn ↦ is_accepted db delpre said sn ]
]

unfoldable pub lookup_accepted_delegating_event :
    Baser → String → SourceSeal → Serder → Option DelegatingEventLookup
unfolding accepted_candidate delegating_lookup
lookup_accepted_delegating_event db delpre source_seal serder =
    elim (get_evt_serder db delpre source_seal.d) [
      | none ↦ none
      | some candidate ↦
          if accepted_candidate db delpre candidate
          then delegating_lookup (some candidate) serder
          else none
    ]

unfoldable pub lookup_authoritative_delegating_event :
    Baser → String → SourceSeal → Serder → Option DelegatingEventLookup
unfolding delegating_lookup
lookup_authoritative_delegating_event db delpre source_seal serder =
    elim (non_empty (get_last db.kels delpre source_seal.s)) [
      | none ↦ none
      | some said ↦ delegating_lookup (get_evt_serder db delpre said) serder
    ]

unfoldable pub latest_accepted_delegated_event_at_sn : Baser → Kever → ℕ → Option Serder
latest_accepted_delegated_event_at_sn db k sn =
    if k.last_est.s == sn then get_evt_serder db k.pre k.last_est.d else none

-- `this.db.getState(pre)?.di || null`
unfoldable pub state_delegator : Option KeyStateRecord → Option String
state_delegator none = none
state_delegator (some state) = non_empty state.di

unfoldable pub delegator_pre_for_event : Baser → Serder → Option String
unfolding state_delegator
delegator_pre_for_event db serder = elim (non_empty serder.pre) [
  | none ↦ none
  | some pre ↦
      if equals serder.ilk "dip" && truthy serder.delpre
      then serder.delpre
      else state_delegator (lookup pre db.states)
]
