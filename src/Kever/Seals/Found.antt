-- ===== src/Kever/Seals/Found.antt =====
-- A delegating event that is found is a stored event of the delegator that seals the delegated one.
use keri_ts.Prelude.{
  sym, eq_iff, All, non_empty-eq, ℕ, ◌≡◌, refl, ◌∙◌, ap, ◌⊎◌, inl, inr, Bool, true, false, Option,
  none, some, List, [], ◌∷◌, String, ltb, non_empty, Bool-cases, Option-cases, arith,
}
use keri_ts.Prelude.Sets.{string_eq, has}
use keri_ts.Tables.{kel_item_eq}
use keri_ts.Prelude.Maps.{lookup, dg_key_eq}
use keri_ts.Event.{Serder, SourceSeal}
use keri_ts.Kever.{KelItem, Baser}
use keri_ts.Kever.Store.{get_evt_serder, get_all_items, get_kel_items, get_last}
use keri_ts.Kever.Seals.{
  DelegatingEventLookup, delegating_lookup, accepted_source_seal_for_event, accepted_candidate,
  lookup_accepted_delegating_event, lookup_authoritative_delegating_event,
}
use keri_ts.Kever.Seals.Fetch.{
  Best, better, consider, search_history, search_branch, best_lookup, search_delegating_event,
  search_and_repair, hinted, fetch_current,
}
use keri_ts.Kever.Seals.Anchored.{Anchors, lookup-parts, has-get_last, IsItem, kel_items-IsItem}

-- A stored event of the delegator that seals the other.
pub record IsFound (db : Baser) (delpre : String) (serder : Serder) (l : DelegatingEventLookup)
    : Type 0 where
  pub digest : String
  pub stored : get_evt_serder db delpre digest ≡ some l.serder
  pub anchors : Anchors l serder

-- Such an event that stands in the log of accepted events.
pub record IsSealing (db : Baser) (delpre : String) (serder : Serder) (l : DelegatingEventLookup)
    : Type 0 where
  pub digest : String
  pub sn : ℕ
  pub logged : has (record { pre = delpre; sn = sn; said = digest }) db.kels ≡ true
  pub stored : get_evt_serder db delpre digest ≡ some l.serder
  pub anchors : Anchors l serder

pub sealing-IsFound :
    (db : Baser) (delpre : String) (serder : Serder) (l : DelegatingEventLookup)
    → IsSealing db delpre serder l
    → IsFound db delpre serder l
sealing-IsFound db delpre serder l s = record {
  digest = s.digest;
  stored = s.stored;
  anchors = s.anchors;
}

module _ (db : Baser) (delpre : String) (serder : Serder) where
  AllSealing : Option DelegatingEventLookup → Type 0
  AllSealing o = (l : DelegatingEventLookup) → o ≡ some l → IsSealing db delpre serder l

  AllFound : Option DelegatingEventLookup → Type 0
  AllFound o = (l : DelegatingEventLookup) → o ≡ some l → IsFound db delpre serder l

  stored-IsFound :
      (digest : String) (found : Option Serder) (l : DelegatingEventLookup)
      → get_evt_serder db delpre digest ≡ found
      → delegating_lookup found serder ≡ some l
      → IsFound db delpre serder l
  unfolding delegating_lookup
  stored-IsFound digest none l e h = absurd (cc h)
  stored-IsFound digest (some candidate) l e h =
      let (same, anchors) = lookup-parts candidate serder l h in
      record { digest = digest; stored = e ∙ ap some same; anchors = anchors }

  event-IsFound :
      (digest : String) (l : DelegatingEventLookup)
      → delegating_lookup (get_evt_serder db delpre digest) serder ≡ some l
      → IsFound db delpre serder l
  event-IsFound digest l h = stored-IsFound digest (get_evt_serder db delpre digest) l refl h

  pub accepted-IsFound :
      (seal : SourceSeal) (l : DelegatingEventLookup)
      → lookup_accepted_delegating_event db delpre seal serder ≡ some l
      → IsFound db delpre serder l
  unfolding lookup_accepted_delegating_event
  accepted-IsFound seal l h = elim (Option-cases (get_evt_serder db delpre seal.d)) [
    | inl missing ↦ absurd (ground (arith, missing, h))
    | inr (candidate, there) ↦ elim (Bool-cases (accepted_candidate db delpre candidate)) [
      | inl accepted ↦
          stored-IsFound seal.d (some candidate) l there (ground (arith, there, accepted, h))
      | inr unknown ↦ absurd (ground (arith, there, unknown, h))
    ]
  ]

  stored-IsSealing :
      (sn : ℕ) (digest : String) (found : Option Serder) (l : DelegatingEventLookup)
      → has (record { pre = delpre; sn = sn; said = digest }) db.kels ≡ true
      → get_evt_serder db delpre digest ≡ found
      → delegating_lookup found serder ≡ some l
      → IsSealing db delpre serder l
  unfolding delegating_lookup
  stored-IsSealing sn digest none l logged e h = absurd (cc h)
  stored-IsSealing sn digest (some candidate) l logged e h =
      let (same, anchors) = lookup-parts candidate serder l h in
      record {
        digest = digest;
        sn = sn;
        logged = logged;
        stored = e ∙ ap some same;
        anchors = anchors;
      }

  event-IsSealing :
      (sn : ℕ) (digest : String) (l : DelegatingEventLookup)
      → has (record { pre = delpre; sn = sn; said = digest }) db.kels ≡ true
      → delegating_lookup (get_evt_serder db delpre digest) serder ≡ some l
      → IsSealing db delpre serder l
  event-IsSealing sn digest l logged h =
      stored-IsSealing sn digest (get_evt_serder db delpre digest) l logged refl h

  authoritative-IsSealing :
      (seal : SourceSeal) (l : DelegatingEventLookup)
      → lookup_authoritative_delegating_event db delpre seal serder ≡ some l
      → IsSealing db delpre serder l
  unfolding lookup_authoritative_delegating_event
  authoritative-IsSealing seal l h =
      elim (Option-cases (non_empty (get_last db.kels delpre seal.s))) [
        | inl missing ↦ absurd (ground (arith, missing, h))
        | inr (said, there) ↦
            event-IsSealing seal.s said l
              (has-get_last db.kels delpre seal.s said
                (non_empty-eq (get_last db.kels delpre seal.s) said there))
              (ground (arith, there, h))
      ]

  hinted-IsSealing :
      (hint : Option SourceSeal) (l : DelegatingEventLookup)
      → hinted db delpre hint serder ≡ some l
      → IsSealing db delpre serder l
  unfolding hinted
  hinted-IsSealing none l h = absurd (cc h)
  hinted-IsSealing (some seal) l h = authoritative-IsSealing seal l h

  item-IsSealing :
      (item : KelItem) (l : DelegatingEventLookup)
      → IsItem db.kels delpre item
      → delegating_lookup (get_evt_serder db delpre item.said) serder ≡ some l
      → IsSealing db delpre serder l
  item-IsSealing item l (under, there) h =
      event-IsSealing item.sn item.said l
        (ap (λ p. has (record { pre = p; sn = item.sn; said = item.said }) db.kels)
            (sym ((eq_iff item.pre delpre).0 under))
          ∙ there)
        h

  branch-IsSealing :
      (best : Option DelegatingEventLookup) (items : List KelItem)
      → AllSealing best
      → All (IsItem db.kels delpre) items
      → AllSealing (search_branch db delpre serder best items)
  unfolding search_branch AllSealing
  branch-IsSealing best [] all logged l h = all l h
  branch-IsSealing best (item ∷ items) all logged l h =
      elim (Option-cases (delegating_lookup (get_evt_serder db delpre item.said) serder)) [
        | inl skip ↦ branch-IsSealing best items all logged.1 l (ground (arith, skip, h))
        | inr (found, e) ↦
            branch-IsSealing (some found) items
              (λ m same. item-IsSealing item m logged.0 (e ∙ same)) logged.1 l
              (ground (arith, e, h))
      ]

  consider-IsFound :
      (best : Best) (item : KelItem)
      → AllFound (best_lookup best)
      → AllFound (best_lookup (consider db delpre serder best item))
  unfolding consider better AllFound
  consider-IsFound best item all l h = elim (Option-cases (lookup (delpre, item.said) db.fons)) [
    | inl unseen ↦ all l (ground (arith, unseen, h))
    | inr (fn, seen) ↦
        elim (Option-cases (delegating_lookup (get_evt_serder db delpre item.said) serder)) [
          | inl skip ↦ all l (ground (arith, seen, skip, h))
          | inr (found, e) ↦ elim (better-cases best found fn) [
            | inl kept ↦ all l (ground (arith, seen, e, kept, h))
            | inr taken ↦ event-IsFound item.said l (e ∙ ground (arith, seen, e, taken, h))
          ]
        ]
  ]
    where
      better-cases :
          (best : Best) (found : DelegatingEventLookup) (fn : ℕ)
          → (best_lookup (better best found fn) ≡ best_lookup best)
            ⊎ (best_lookup (better best found fn) ≡ some found)
      better-cases none found fn = inr refl
      better-cases (some (b, bn)) found fn = elim (Bool-cases (ltb bn fn)) [
        | inl later ↦ inr (ground (arith, later))
        | inr earlier ↦ inl (ground (arith, earlier))
      ]

  history-IsFound :
      (best : Best) (items : List KelItem)
      → AllFound (best_lookup best)
      → AllFound (best_lookup (search_history db delpre serder best items))
  unfolding search_history
  history-IsFound best [] all = all
  history-IsFound best (item ∷ items) all =
      history-IsFound (consider db delpre serder best item) items (consider-IsFound best item all)

  search-IsSealing :
      (l : DelegatingEventLookup)
      → search_delegating_event db delpre serder false ≡ some l
      → IsSealing db delpre serder l
  unfolding search_delegating_event AllSealing
  search-IsSealing l h =
      branch-IsSealing none (get_kel_items db delpre) (λ m e. absurd (cc e))
        (kel_items-IsItem db delpre) l h

  search-IsFound :
      (original : Bool) (l : DelegatingEventLookup)
      → search_delegating_event db delpre serder original ≡ some l
      → IsFound db delpre serder l
  unfolding search_delegating_event AllFound
  search-IsFound true l h =
      history-IsFound none (get_all_items db.kels delpre) (λ m e. absurd (cc e)) l h
  search-IsFound false l h = sealing-IsFound db delpre serder l (search-IsSealing l h)

  pub eager-IsFound :
      (original eager : Bool) (l : DelegatingEventLookup)
      → (search_and_repair db delpre serder original eager).0 ≡ some l
      → IsFound db delpre serder l
  unfolding search_and_repair
  eager-IsFound original false l h = absurd (cc h)
  eager-IsFound original true l h =
      elim (Option-cases (search_delegating_event db delpre serder original)) [
        | inl missing ↦ absurd (ground (arith, missing, h))
        | inr (found, e) ↦ search-IsFound original l (e ∙ ground (arith, e, h))
      ]

  eager-IsSealing :
      (eager : Bool) (l : DelegatingEventLookup)
      → (search_and_repair db delpre serder false eager).0 ≡ some l
      → IsSealing db delpre serder l
  unfolding search_and_repair
  eager-IsSealing false l h = absurd (cc h)
  eager-IsSealing true l h = elim (Option-cases (search_delegating_event db delpre serder false)) [
    | inl missing ↦ absurd (ground (arith, missing, h))
    | inr (found, e) ↦ search-IsSealing l (e ∙ ground (arith, e, h))
  ]

-- The delegating event that `fetchDelegatingEvent` returns for a new event, by the attached seal, by
-- the stored one or by the search, is a stored event of the delegator that stands in its log of
-- accepted events, and one of its event seals has the prefix, number and digest of the delegated
-- event.
pub fetch_current-IsSealing :
    (db : Baser) (delpre : String) (serder : Serder) (hint : Option SourceSeal) (eager : Bool)
    (l : DelegatingEventLookup)
    → (fetch_current db delpre serder hint eager).0 ≡ some l
    → IsSealing db delpre serder l
unfolding fetch_current
fetch_current-IsSealing db delpre serder hint eager l h =
    elim (Option-cases (hinted db delpre hint serder)) [
      | inr (found, e) ↦ hinted-IsSealing db delpre serder hint l (e ∙ ground (arith, e, h))
      | inl missed ↦
          let stored = accepted_source_seal_for_event db serder in
          elim (Option-cases (hinted db delpre stored serder)) [
            | inr (found, e) ↦
                hinted-IsSealing db delpre serder stored l (e ∙ ground (arith, missed, e, h))
            | inl missed' ↦
                eager-IsSealing db delpre serder eager l (ground (arith, missed, missed', h))
          ]
    ]
