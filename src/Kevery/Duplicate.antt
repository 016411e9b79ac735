-- ===== src/Kevery/Duplicate.antt =====
-- packages/keri/src/core/eventing.ts: `buildDuplicateDecision`, what an event that is accepted already
-- brings that is new; with `fetchLastSealingEventByEventSeal` and `fullyWitnessed` of
-- packages/keri/src/db/basing.ts.
use keri_ts.Prelude.{
  ℕ, Bool, true, false, not, ◌&&◌, ◌||◌, Option, none, some, List, [], ◌∷◌, String, leb, ltb,
  if◌then◌else◌, keep, length, is_some, or_else, or_maybe, equals, non_empty, first, every,
}
use keri_ts.Prelude.Sets.{string_eq, nat_eq, has}
use keri_ts.Prelude.Equality.{same_list}
use keri_ts.Prelude.Text.{codes, to_string}
use keri_ts.Prelude.Maps.{DgKey, dg_key_eq, lookup}
use keri_ts.Prelude.Result.{ok, ◌>>=◌, err}
use keri_ts.Tables.{get_set}
use keri_ts.Event.{EventSeal, Serder, Siger, siger_eq, unverified, SourceSeal, KeverEventInit}
use keri_ts.Event.Decision.{
  same_said, late_attachments, KelEventState, KeverDecision, kever_duplicate,
}
use keri_ts.Kever.{Primitives, Kever, KelItem, Baser, invalid_verfer}
use keri_ts.Kever.Store.{Step, get_evt_serder, get_kel_items, get_kever}
use keri_ts.Kever.Signatures.{verify_indexed_signatures}

-- `fullyWitnessed`
unfoldable pub fully_witnessed : Primitives → Serder → Baser → Step Bool
unfolding get_kever get_set
fully_witnessed prim serder db = elim (non_empty serder.pre) [
  | none ↦ ok (false, db)
  | some pre ↦ elim (non_empty serder.said) [
    | none ↦ ok (false, db)
    | some said ↦ get_kever prim db pre >>= λ kever. ok (
      elim kever.0 [ none ↦ false | some k ↦ leb k.toader (length (get_set (pre, said) db.wigs)) ],
      kever.1,
    )
  ]
]

-- `eventSealsEqual` with the seal of an event: the ordinals are compared as numbers.
unfoldable pub seals_event : EventSeal → String → ℕ → String → Bool
seals_event seal pre sn said =
    equals (some seal.i) pre
    && same_list (codes seal.s) (to_string 16 sn)
    && equals (some seal.d) said

-- One of the seals names the event, and the sealing event is fully witnessed.
unfoldable pub sealed_by :
    Primitives → Serder → String → ℕ → String → List EventSeal → Baser → Step Bool
unfolding seals_event fully_witnessed
sealed_by prim serder pre sn said [] db = ok (false, db)
sealed_by prim serder pre sn said (seal ∷ seals) db =
    let rest = λ (db' : Baser). sealed_by prim serder pre sn said seals db' in
    if seals_event seal pre sn said
    then (fully_witnessed prim serder db >>= λ r. if r.0 then ok (true, r.1) else rest r.1)
    else rest db

unfoldable pub search_sealing :
    Primitives → String → String → ℕ → String → List KelItem → Baser → Step (Option Serder)
unfolding sealed_by
search_sealing prim delpre pre sn said [] db = ok (none, db)
search_sealing prim delpre pre sn said (item ∷ items) db =
    let rest = λ (db' : Baser). search_sealing prim delpre pre sn said items db' in
    elim (get_evt_serder db delpre item.said) [
      | none ↦ rest db
      | some serder ↦ sealed_by prim serder pre sn said serder.event_seals db >>= λ r.
          if r.0 then ok (some serder, r.1) else rest r.1
    ]

-- `fetchLastSealingEventByEventSeal`
unfoldable pub fetch_last_sealing_event :
    Primitives → String → String → ℕ → String → Baser → Step (Option Serder)
unfolding search_sealing
fetch_last_sealing_event prim delpre pre sn said db =
    search_sealing prim delpre pre sn said (get_kel_items db delpre) db

-- The identifiers of a delegated event that is no interaction, and its delegator.
pub record DelegatedEvent : Type 0 where
  pub delpre : String
  pub pre : String
  pub said : String
  pub sn : ℕ

unfoldable pub delegated_event : Kever → Serder → Option DelegatedEvent
delegated_event k serder =
    if not k.delegated || equals serder.ilk "ixn" then none else elim (non_empty k.delpre) [
      | none ↦ none
      | some delpre ↦ elim (non_empty serder.pre) [
        | none ↦ none
        | some pre ↦ elim (non_empty serder.said) [
          | none ↦ none
          | some said ↦ elim serder.sn [
            | none ↦ none
            | some sn ↦ some (record { delpre = delpre; pre = pre; said = said; sn = sn })
          ]
        ]
      ]
    ]

-- The seal names the event that the search finds.
unfoldable pub names_anchoring : SourceSeal → Option Serder → Bool
names_anchoring seal none = false
names_anchoring seal (some anchoring) =
    elim anchoring.snh [ none ↦ false | some snh ↦ same_list (codes snh) (to_string 16 seal.s) ]
    && equals anchoring.said seal.d

unfoldable pub valid_duplicate_source_seal :
    Primitives → Kever → Serder → SourceSeal → Baser → Step Bool
unfolding fetch_last_sealing_event delegated_event names_anchoring
valid_duplicate_source_seal prim k serder seal db = elim (delegated_event k serder) [
  | none ↦ ok (false, db)
  | some event ↦
      fetch_last_sealing_event prim event.delpre event.pre event.sn event.said db >>= λ r.
      ok (names_anchoring seal r.0, r.1)
]

-- The seal, if it is valid and none is stored.
unfoldable pub new_source_seal :
    Primitives → Kever → Serder → Option SourceSeal → Baser → Step (Option SourceSeal)
unfolding valid_duplicate_source_seal
new_source_seal prim k serder none db = ok (none, db)
new_source_seal prim k serder (some seal) db =
    if is_some (lookup (k.pre, or_else serder.said "") db.aess)
    then ok (none, db)
    else (valid_duplicate_source_seal prim k serder seal db >>= λ r.
        ok (if r.0 then some seal else none, r.1))

-- The verified signatures that are not stored.
unfoldable pub new_signatures :
    Primitives → Serder → List Siger → List String → List Siger → List Siger
unfolding verify_indexed_signatures
new_signatures prim serder sigers verfers stored =
    keep (λ siger. not (has (unverified siger) stored))
      (verify_indexed_signatures prim serder.raw sigers verfers).sigers

abbrev pub is_establishment_ilk : Option String → Bool
is_establishment_ilk ilk =
    equals ilk "icp" || equals ilk "dip" || equals ilk "rot" || equals ilk "drt"

abbrev pub duplicate_verfers : Kever → Serder → List String
duplicate_verfers k serder = if is_establishment_ilk serder.ilk then serder.verfers else k.verfers

unfoldable pub late_log :
    Primitives → Kever → KeverEventInit → Baser → Option SourceSeal → KelEventState
unfolding new_signatures get_set
late_log prim k init db seal =
    let key : DgKey = (k.pre, or_else init.serder.said "") in
    record {
      serder = init.serder;
      sigers =
          new_signatures prim init.serder init.sigers (duplicate_verfers k init.serder)
            (get_set key db.sigs);
      wigers =
          new_signatures prim init.serder init.wigers (get_set key db.wits) (get_set key db.wigs);
      wits = some (get_set key db.wits);
      first = false;
      frc = none;
      source_seal = seal;
      local = init.local;
    }

abbrev pub duplicate_of : KelEventState → KeverDecision
duplicate_of log =
    if ltb 0 (length log.sigers) || ltb 0 (length log.wigers) || is_some log.source_seal
    then kever_duplicate late_attachments (some log)
    else kever_duplicate same_said none

-- `storedWitnesses.map((wit) => new Verfer({ qb64: wit }))` returns.
abbrev pub has_verfers : Primitives → List String → Bool
has_verfers prim wits = every prim.is_verfer wits

unfoldable pub build_duplicate_decision :
    Primitives → Kever → KeverEventInit → Baser → Step KeverDecision
unfolding new_source_seal late_log get_set
build_duplicate_decision prim k init db =
    new_source_seal prim k init.serder (or_maybe (first init.ssts) (first init.sscs)) db >>= λ r.
    if has_verfers prim (get_set (k.pre, or_else init.serder.said "") r.1.wits)
    then ok (duplicate_of (late_log prim k init r.1 r.0), r.1)
    else err invalid_verfer
