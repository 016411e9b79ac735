-- ===== src/Kever/Seals/Anchored.antt =====
-- What a seal that is matched names, and what the items of the log of accepted events are.
use mathlib.Core.Path.{subst}
use keri_ts.Prelude.{
  sym, str_eq, eq_iff, ◌==◌, ==_iff, ◌&&◌, All, keep, equals-some, ℕ, suc, ◌≡◌, refl, ◌∙◌, ap, inl,
  inr, true, some, List, [], ◌∷◌, String, get_elem?, non_empty, Bool-cases, Option-cases, arith,
}
use keri_ts.Prelude.Sets.{string_eq, has}
use keri_ts.Prelude.Sort.{sort_by, All-sort_by}
use keri_ts.Tables.{kel_item_eq}
use keri_ts.Prelude.Maps.{dg_key_eq}
use keri_ts.Event.{EventSeal, Serder}
use keri_ts.Kever.{KelItem, Baser}
use keri_ts.Kever.Store.{get_all_items, get_kel_items, get_last, last_items}
use keri_ts.Kever.Seals.{
  DelegatingEventLookup, seal_matches, event_anchor_seal_index, delegating_lookup,
}

-- The event seals the other: the seal at the index has its prefix, its number and its digest.
pub record Anchors (l : DelegatingEventLookup) (serder : Serder) : Type 0 where
  pub seal : EventSeal
  pub at_index : get_elem? l.serder.event_seals l.seal_index ≡ some seal
  pub same_pre : serder.pre ≡ some seal.i
  pub same_sn : serder.snh ≡ some seal.s
  pub same_said : serder.said ≡ some seal.d
  pub numbered : l.serder.sn ≡ some l.source_seal.s

index-matches :
    (seals : List EventSeal) (serder : Serder) (i : ℕ)
    → event_anchor_seal_index seals serder ≡ some i
    → (seal : EventSeal) × (get_elem? seals i ≡ some seal) × (seal_matches seal serder ≡ true)
unfolding event_anchor_seal_index
index-matches [] serder i h = absurd (cc h)
index-matches (seal ∷ seals) serder i h = elim (Bool-cases (seal_matches seal serder)) [
  | inl here ↦
      let at : some 0 ≡ some i = ground (arith, here, h) in
      (seal, ap (λ (j : ℕ). get_elem? (seal ∷ seals) j) (let e : i ≡ 0 = cc at in e), here)
  | inr other ↦ elim (Option-cases (event_anchor_seal_index seals serder)) [
    | inl none_there ↦ absurd (ground (arith, other, none_there, h))
    | inr (j, there) ↦
        let at : some (suc j) ≡ some i = ground (arith, other, there, h) in
        let (found, at_j, names) = index-matches seals serder j there in
        (
          found,
          ap (λ (n : ℕ). get_elem? (seal ∷ seals) n) (let e : i ≡ suc j = cc at in e) ∙ at_j,
          names,
        )
  ]
]

pub lookup-parts :
    (candidate serder : Serder) (l : DelegatingEventLookup)
    → delegating_lookup (some candidate) serder ≡ some l
    → (candidate ≡ l.serder) × Anchors l serder
unfolding delegating_lookup seal_matches
lookup-parts candidate serder l h = elim (Option-cases candidate.sn) [
  | inl no_sn ↦ absurd (ground (arith, no_sn, h))
  | inr (sn, has_sn) ↦ elim (Option-cases (non_empty candidate.said)) [
    | inl no_said ↦ absurd (ground (arith, has_sn, no_said, h))
    | inr (said, has_said) ↦
        elim (Option-cases (event_anchor_seal_index candidate.event_seals serder)) [
          | inl no_seal ↦ absurd (ground (arith, has_sn, has_said, no_seal, h))
          | inr (i, has_seal) ↦
              let made : DelegatingEventLookup = record {
                serder = candidate;
                source_seal = record { s = sn; d = said };
                seal_index = i;
              } in
              let same : some made ≡ some l = ground (arith, has_sn, has_said, has_seal, h) in
              let equal : made ≡ l = cc same in
              let (seal, at, names) = index-matches candidate.event_seals serder i has_seal in
              (
                ap (λ (x : DelegatingEventLookup). x.serder) equal,
                subst (λ x. Anchors x serder) equal
                    (record {
                      seal = seal;
                      at_index = at;
                      same_pre = equals-some serder.pre seal.i (ground (arith, names));
                      same_sn = equals-some serder.snh seal.s (ground (arith, names));
                      same_said = equals-some serder.said seal.d (ground (arith, names));
                      numbered = has_sn;
                    }),
              )
        ]
  ]
]

pub has-get_last :
    (kels : List KelItem) (pre : String) (sn : ℕ) (said : String)
    → get_last kels pre sn ≡ some said
    → has (record { pre = pre; sn = sn; said = said }) kels ≡ true
unfolding get_last has
has-get_last [] pre sn said h = absurd (cc h)
has-get_last (item ∷ items) pre sn said h = elim (Option-cases (get_last items pre sn)) [
  | inr (last, there) ↦
      let same : some last ≡ some said = ground (arith, there, h) in
      ground (arith, has-get_last items pre sn said (there ∙ same))
  | inl none_there ↦ elim (Bool-cases (str_eq item.pre pre && item.sn == sn)) [
    | inr other ↦ absurd (ground (arith, none_there, other, h))
    | inl here ↦
        let at : some item.said ≡ some said = ground (arith, none_there, here, h) in
        let same_said : item.said ≡ said = cc at in
        ground (
          arith,
          (eq_iff pre item.pre).1 (sym ((eq_iff item.pre pre).0 (ground (arith, here)))),
          (==_iff sn item.sn).1 (sym ((==_iff item.sn sn).0 (ground (arith, here)))),
          (eq_iff said item.said).1 (sym same_said),
        )
  ]
]

-- An item of the log, under the prefix.
abbrev pub IsItem : List KelItem → String → KelItem → Type 0
IsItem kels pre item = (str_eq item.pre pre ≡ true) × (has item kels ≡ true)

keep-IsItem :
    (all kels : List KelItem) (pre : String)
    → ((item : KelItem) → has item kels ≡ true → has item all ≡ true)
    → All (IsItem all pre) (keep (λ item. str_eq item.pre pre) kels)
unfolding has
keep-IsItem all [] pre part = tt
keep-IsItem all (item ∷ items) pre part =
    let rest : All (IsItem all pre) (keep (λ x. str_eq x.pre pre) items) =
      keep-IsItem all items pre (λ x there. part x (ground (arith, there))) in
    elim (Bool-cases (str_eq item.pre pre)) [
      | inr other ↦ rw other rest
      | inl under ↦
          rw under
            ((under, part item (ground (arith, (kel_item_eq.beq_iff item item).1 refl))), rest)
    ]

last_items-All :
    (P : KelItem → Type 0) (items : List KelItem) → All P items → All P (last_items items)
unfolding last_items
last_items-All P [] h = tt
last_items-All P (item ∷ []) h = h
last_items-All P (item ∷ next ∷ items) h = elim (Bool-cases (item.sn == next.sn)) [
  | inl same ↦ rw same (last_items-All P (next ∷ items) h.1)
  | inr other ↦ rw other (h.0, last_items-All P (next ∷ items) h.1)
]

pub kel_items-IsItem : (db : Baser) (pre : String) → All (IsItem db.kels pre) (get_kel_items db pre)
unfolding get_kel_items get_all_items
kel_items-IsItem db pre =
    last_items-All (IsItem db.kels pre)
      (sort_by (λ item. item.sn) (keep (λ item. str_eq item.pre pre) db.kels))
      (All-sort_by (λ (item : KelItem). item.sn) (IsItem db.kels pre)
        (keep (λ item. str_eq item.pre pre) db.kels)
        (keep-IsItem db.kels db.kels pre (λ item there. there)))
