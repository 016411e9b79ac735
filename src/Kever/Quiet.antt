-- ===== src/Kever/Quiet.antt =====
-- The evaluation of an event changes no table but the stored source seals, and the cache.
use keri_ts.Prelude.{
  ℕ, zero, suc, ◌+◌, Bool, not, ◌&&◌, ◌||◌, Option, none, some, List, [], ◌∷◌, String, str_eq, ltb,
  leb, length, or_else, equals, non_empty, every, ◌==◌,
}
use keri_ts.Prelude.Sets.{string_eq}
use keri_ts.Prelude.Result.{ok, guard}
use keri_ts.Event.{Siger, KeverEventInit}
use keri_ts.Event.Decision.{AgentCue, RejectKind, delegables, partial_dels, query_delegator}
use keri_ts.Kever.{
  Primitives, out_of_fuel, Kever, Baser, invalid_verfer, has_valid_threshold_material,
}
use keri_ts.Kever.Store.{Step, get_kever}
use keri_ts.Kever.Store.Cache.{get_kever-IsCached}
use keri_ts.Kever.Store.Quiet.{
  IsQuiet, Quiet, ok-Quiet, moved-Quiet, err-Quiet, if-Quiet, option-Quiet, then-Quiet, pure-Quiet,
  cached-IsQuiet,
}
use keri_ts.Kever.Load.{load_state}
use keri_ts.Kever.Inputs.{make_attachment_escrow_decision, AttachmentValidationInput}
use keri_ts.Kever.Seals.{DelegatingEventLookup, latest_accepted_delegated_event_at_sn}
use keri_ts.Kever.Seals.Fetch.{fetch_current, fetch_original}
use keri_ts.Kever.Seals.Repaired.{IsRepaired, fetch_current-IsRepaired, fetch_original-IsRepaired}
use keri_ts.Kever.Signatures.{
  SignerVerificationResult, local_keys, add_keys, locally_contributed_indices,
  verify_indexed_signatures,
}
use keri_ts.Kever.Recovery.{
  CycleKey, Verdict, supersedes, refused, climb, recovery_verdict, cycle_key, NextTurn,
  climb_original, climb_candidate, after_verdict, validate_delegated_recovery, recovery_fuel,
}
use keri_ts.Kever.Delegation.{
  recovered, validate_recovery, after_fetch, validate_anchor, delegate_unless, validate_delegation,
  awaits_local_approval, delegation_verified, is_protected,
}
use keri_ts.Kever.Attachments.{
  is_misfit, satisfies, satisfies_prior_next, WitnessGate, enough_receipts, few_receipts,
  bad_witness_threshold, witness_gate, after_receipts, validate_receipts, validate_signed,
  strip_membered, validate_attachments, strip, finish,
}
use keri_ts.Kever.Backers.{DerivedBacksResult, derive_backs_decision}
use keri_ts.Kever.Rotation.{
  kever_said, prior_fault, rotation_input, conclude_rotation, rotate_backs, rotate, rotate_unless,
  evaluate_rotation,
}
use keri_ts.Kever.Update.{
  evaluate_interaction, route_update, route_sn, route_ilk, evaluate_update, interaction_input,
  conclude_interaction,
}
use keri_ts.Kever.Inception.{
  provisional_state, inception_input, conclude_inception, incept_unless, evaluate_inception,
  verify_incept,
}

pub get_kever-Quiet :
    (prim : Primitives) (db : Baser) (pre : String) → Quiet db (get_kever prim db pre)
get_kever-Quiet prim db pre r h = cached-IsQuiet db r.1 (get_kever-IsCached prim db pre r h)

repaired-IsQuiet : (db db' : Baser) → IsRepaired db db' → IsQuiet db db'
repaired-IsQuiet db db' r = record { seals = r.seals; cache = db.kevers; same = r.same }

-- What follows a fetch.
fetched-Quiet :
    {A B : Type 0} (db : Baser) (found : A × Baser) (f : A × Baser → Step B)
    → IsRepaired db found.1
    → ((r : A × Baser) → Quiet r.1 (f r))
    → Quiet db (f found)
fetched-Quiet db found f repaired q =
    then-Quiet db (ok found) f
      (moved-Quiet db found.0 found.1 (repaired-IsQuiet db found.1 repaired)) q

module _ (turn : NextTurn)
    (quiet : (db : Baser) (next : String) (c o : DelegatingEventLookup)
      → Quiet db (turn db next c o))
    (k : Kever) (input : AttachmentValidationInput) where
  original-Quiet :
      (next : String) (c : DelegatingEventLookup) (r : Option DelegatingEventLookup × Baser)
      → Quiet r.1 (climb_original turn k input next c r)
  unfolding climb_original
  original-Quiet next c (none, db) = ok-Quiet db _
  original-Quiet next c (some o, db) = quiet db next c o

  candidate-Quiet :
      (next : String) (o : DelegatingEventLookup) (r : Option DelegatingEventLookup × Baser)
      → Quiet r.1 (climb_candidate turn k input next o r)
  unfolding climb_candidate
  candidate-Quiet next o (none, db) = ok-Quiet db _
  candidate-Quiet next o (some c, db) =
      fetched-Quiet db (fetch_original db next o.serder input.eager)
        (climb_original turn k input next c)
        (fetch_original-IsRepaired db next o.serder input.eager) (original-Quiet next c)

  verdict-Quiet :
      (db : Baser) (c o : DelegatingEventLookup) (v : Verdict)
      → Quiet db (after_verdict turn k input db c o v)
  unfolding after_verdict
  verdict-Quiet db c o supersedes = ok-Quiet db _
  verdict-Quiet db c o refused = ok-Quiet db _
  verdict-Quiet db c o (climb next) =
      fetched-Quiet db (fetch_current db next c.serder none input.eager)
        (climb_candidate turn k input next o)
        (fetch_current-IsRepaired db next c.serder none input.eager) (candidate-Quiet next o)

recovery-Quiet :
    (fuel : ℕ) (k : Kever) (input : AttachmentValidationInput) (db : Baser)
    (visited : List CycleKey) (delpre : String) (c o : DelegatingEventLookup)
    → Quiet db (validate_delegated_recovery fuel k input db visited delpre c o)
unfolding validate_delegated_recovery
recovery-Quiet zero k input db visited delpre c o = err-Quiet db out_of_fuel
recovery-Quiet (suc fuel) k input db visited delpre c o =
    verdict-Quiet
      (λ db' next c' o'.
        validate_delegated_recovery fuel k input db' (cycle_key delpre c o ∷ visited) next c' o')
      (λ db' next c' o'.
        recovery-Quiet fuel k input db' (cycle_key delpre c o ∷ visited) next c' o')
      k input db c o (recovery_verdict db visited delpre c o)

module _ (k : Kever) (input : AttachmentValidationInput) (delpre : String) where
  validate_recovery-Quiet :
      (db : Baser) (found : DelegatingEventLookup)
      → Quiet db (validate_recovery k input db delpre found)
  unfolding validate_recovery
  validate_recovery-Quiet db found = option-Quiet db input.serder.sn _ _ (ok-Quiet db _) λ sn.
      option-Quiet db (latest_accepted_delegated_event_at_sn db k sn) _ _ (ok-Quiet db _)
        λ original.
          fetched-Quiet db (fetch_original db delpre original input.eager) _
            (fetch_original-IsRepaired db delpre original input.eager)
            λ r.
              option-Quiet r.1 r.0 _ _
                (ok-Quiet r.1 (
                  make_attachment_escrow_decision k partial_dels input
                    (query_delegator delpre none ∷ [])))
                λ original'.
                  then-Quiet r.1 _ _
                    (recovery-Quiet (recovery_fuel r.1) k input r.1 [] delpre found original')
                    λ d. ok-Quiet d.1 (recovered input delpre found d.0)

  after_fetch-Quiet :
      (r : Option DelegatingEventLookup × Baser) → Quiet r.1 (after_fetch k input delpre r)
  unfolding after_fetch
  after_fetch-Quiet (none, db) = ok-Quiet db _
  after_fetch-Quiet (some found, db) =
      if-Quiet db _ _ _ (ok-Quiet db _) (validate_recovery-Quiet db found)

  validate_anchor-Quiet :
      (db : Baser) (delegator : Option Kever)
      → Quiet db (validate_anchor k input db delpre delegator)
  unfolding validate_anchor
  validate_anchor-Quiet db none = ok-Quiet db _
  validate_anchor-Quiet db (some delegator) = if-Quiet db _ _ _ (ok-Quiet db _) (
      fetched-Quiet db (fetch_current db delpre input.serder input.source_seal input.eager)
        (after_fetch k input delpre)
        (fetch_current-IsRepaired db delpre input.serder input.source_seal input.eager)
        after_fetch-Quiet)

delegate_unless-Quiet :
    (prim : Primitives) (k : Kever) (input : AttachmentValidationInput) (db : Baser)
    (delpre : Option String)
    → Quiet db (delegate_unless prim k input db delpre)
unfolding delegate_unless
delegate_unless-Quiet prim k input db none = ok-Quiet db _
delegate_unless-Quiet prim k input db (some delpre) =
    if-Quiet db (awaits_local_approval k input db delpre) _ _
      (ok-Quiet db (make_attachment_escrow_decision k delegables input []))
      (if-Quiet db (is_protected k input.wits db) _ _
        (ok-Quiet db (delegation_verified input (some delpre) input.source_seal))
        (then-Quiet db _ _ (get_kever-Quiet prim db delpre)
          λ r. validate_anchor-Quiet k input delpre r.1 r.0))

validate_delegation-Quiet :
    (prim : Primitives) (k : Kever) (input : AttachmentValidationInput) (db : Baser)
    → Quiet db (validate_delegation prim k input db)
unfolding validate_delegation
validate_delegation-Quiet prim k input db =
    delegate_unless-Quiet prim k input db (non_empty input.delpre)

local_keys-Quiet :
    (prim : Primitives) (db : Baser) (keys prefixes : List String)
    → Quiet db (local_keys prim db keys prefixes)
unfolding local_keys
local_keys-Quiet prim db keys [] = ok-Quiet db _
local_keys-Quiet prim db keys (pre ∷ prefixes) =
    then-Quiet db _ _ (get_kever-Quiet prim db pre) λ found.
      option-Quiet found.1 found.0 _ _ (local_keys-Quiet prim found.1 keys prefixes)
        λ kever. local_keys-Quiet prim found.1 (add_keys keys kever.verfers) prefixes

contributed-Quiet :
    (prim : Primitives) (db : Baser) (verfers : List String)
    → Quiet db (locally_contributed_indices prim db verfers)
unfolding locally_contributed_indices
contributed-Quiet prim db verfers =
    then-Quiet db _ _ (local_keys-Quiet prim db [] db.prefixes) λ keys. ok-Quiet keys.1 _

module _ (prim : Primitives) (k : Kever) (input : AttachmentValidationInput) where
  strip-Quiet : (db : Baser) → Quiet db (strip_membered prim k input db)
  unfolding strip_membered
  strip-Quiet db =
      if-Quiet db _ _ _
        (then-Quiet db _ _ (contributed-Quiet prim db input.verfers)
          λ found. ok-Quiet found.1 (strip input.serder found.0 input.sigers))
        (ok-Quiet db _)

  receipts-Quiet :
      (remote : List AgentCue) (sigers wigers : List Siger) (db : Baser) (gate : WitnessGate)
      → Quiet db (after_receipts prim k input remote sigers wigers db gate)
  unfolding after_receipts
  receipts-Quiet remote sigers wigers db bad_witness_threshold = ok-Quiet db _
  receipts-Quiet remote sigers wigers db few_receipts = ok-Quiet db _
  receipts-Quiet remote sigers wigers db enough_receipts =
      then-Quiet db _ _ (validate_delegation-Quiet prim k input db)
        λ r. ok-Quiet r.1 (finish input remote sigers wigers r.0)

  validate_receipts-Quiet :
      (remote : List AgentCue) (sigers : List Siger) (db : Baser)
      → Quiet db (validate_receipts prim k input remote sigers db)
  unfolding validate_receipts
  validate_receipts-Quiet remote sigers db =
      pure-Quiet {A = (Unit {0})} db (guard (every prim.is_verfer input.wits) invalid_verfer) _ λ _.
        receipts-Quiet remote sigers
          ((verify_indexed_signatures prim input.serder.raw input.wigers input.wits).sigers) db
          (witness_gate k input db (
            length
              (verify_indexed_signatures prim input.serder.raw input.wigers input.wits).sigers))

  signed-Quiet :
      (remote : List AgentCue) (verified : SignerVerificationResult) (db : Baser)
      → Quiet db (validate_signed prim k input remote verified db)
  unfolding validate_signed
  signed-Quiet remote verified db = if-Quiet db (length verified.sigers == 0) _ _ (ok-Quiet db _) (
      if-Quiet db (is_misfit k input db) _ _ (ok-Quiet db _) (
        pure-Quiet db (satisfies input.tholder verified.indices) _ λ enough.
          if-Quiet db (not enough) _ _ (ok-Quiet db _) (
            pure-Quiet db (satisfies_prior_next prim k input verified.sigers) _ λ exposed.
              if-Quiet db (not exposed) _ _ (ok-Quiet db _)
                (validate_receipts-Quiet remote verified.sigers db))))

  attachments-Quiet : (db : Baser) → Quiet db (validate_attachments prim k input db)
  unfolding validate_attachments
  attachments-Quiet db =
      if-Quiet db (not (has_valid_threshold_material input.tholder (length input.verfers))) _ _
        (ok-Quiet db _)
        (then-Quiet db (strip_membered prim k input db) _ (strip-Quiet db) λ counted.
          signed-Quiet counted.0.1
            (verify_indexed_signatures prim input.serder.raw counted.0.0 input.verfers) counted.1)

module _ (prim : Primitives) (k : Kever) (init : KeverEventInit) where
  backs-Quiet :
      (local : Bool) (ilk : String) (sn : ℕ) (db : Baser) (derived : Option DerivedBacksResult)
      → Quiet db (rotate_backs prim k init local ilk sn db derived)
  unfolding rotate_backs
  backs-Quiet local ilk sn db none = ok-Quiet db _
  backs-Quiet local ilk sn db (some derived) =
      then-Quiet db _ _ (attachments-Quiet prim k (rotation_input k init local derived) db)
        λ r. ok-Quiet r.1 (conclude_rotation k init local ilk sn derived r.0)

  rotate-Quiet :
      (local : Bool) (ilk : String) (sn : ℕ) (db : Baser) (fault : Option RejectKind)
      → Quiet db (rotate_unless prim k init local ilk sn db fault)
  unfolding rotate_unless rotate
  rotate-Quiet local ilk sn db (some code) = ok-Quiet db _
  rotate-Quiet local ilk sn db none =
      if-Quiet db
        (not (has_valid_threshold_material init.serder.tholder (length init.serder.verfers))) _ _
        (ok-Quiet db _) (backs-Quiet local ilk sn db (derive_backs_decision k.wits init.serder))

  rotation-Quiet :
      (local : Bool) (sn : ℕ) (db : Baser) → Quiet db (evaluate_rotation prim k init local sn db)
  unfolding evaluate_rotation
  rotation-Quiet local sn db =
      let ilk : String = or_else init.serder.ilk "rot" in
      if-Quiet db (k.delegated && not (str_eq ilk "drt")) _ _ (ok-Quiet db _) (
        if-Quiet db (not k.delegated && str_eq ilk "drt") _ _ (ok-Quiet db _) (
          if-Quiet db (ltb (k.sn + 1) sn) _ _ (ok-Quiet db _) (
            pure-Quiet db (prior_fault k init.serder ilk sn db) _
              λ fault. rotate-Quiet local ilk sn db fault)))

  interaction-Quiet :
      (local : Bool) (sn : ℕ) (db : Baser) → Quiet db (evaluate_interaction prim k init local sn db)
  unfolding evaluate_interaction
  interaction-Quiet local sn db = if-Quiet db k.est_only _ _ (ok-Quiet db _) (
      if-Quiet db (ltb (k.sn + 1) sn) _ _ (ok-Quiet db _) (
        if-Quiet db (leb sn k.sn) _ _ (ok-Quiet db _) (
          if-Quiet db (not (equals init.serder.prior (kever_said k))) _ _ (ok-Quiet db _) (
            then-Quiet db _ _ (attachments-Quiet prim k (interaction_input k init local) db)
              λ r. ok-Quiet r.1 (conclude_interaction k init local sn r.0)))))

  route-Quiet :
      (db : Baser) (ilk : String) (sn : Option ℕ) → Quiet db (route_sn prim k init db ilk sn)
  unfolding route_sn route_update
  route-Quiet db ilk none = ok-Quiet db _
  route-Quiet db ilk (some sn) =
      if-Quiet db (str_eq ilk "rot" || str_eq ilk "drt") _ _ (rotation-Quiet init.local sn db)
        (if-Quiet db (str_eq ilk "ixn") _ _ (interaction-Quiet init.local sn db) (ok-Quiet db _))

  ilk-Quiet : (db : Baser) (ilk : Option String) → Quiet db (route_ilk prim k init db ilk)
  unfolding route_ilk
  ilk-Quiet db none = ok-Quiet db _
  ilk-Quiet db (some ilk) = route-Quiet db ilk init.serder.sn

  pub evaluate_update-Quiet : (db : Baser) → Quiet db (evaluate_update prim k init db)
  unfolding evaluate_update
  evaluate_update-Quiet db = if-Quiet db (not k.transferable) _ _ (ok-Quiet db _) (
      if-Quiet db (not (equals init.serder.pre k.pre)) _ _ (ok-Quiet db _)
        (ilk-Quiet db (non_empty init.serder.ilk)))

incept-Quiet :
    (prim : Primitives) (init : KeverEventInit) (db : Baser) (fault : Option RejectKind)
    → Quiet db (incept_unless prim init db fault)
unfolding incept_unless
incept-Quiet prim init db (some code) = ok-Quiet db _
incept-Quiet prim init db none =
    pure-Quiet db (load_state prim (provisional_state prim init) init.serder) _ λ scratch.
      then-Quiet db _ _ (attachments-Quiet prim scratch (inception_input init) db)
        λ r. ok-Quiet r.1 (conclude_inception prim init r.0)

pub evaluate_inception-Quiet :
    (prim : Primitives) (init : KeverEventInit) (db : Baser)
    → Quiet db (evaluate_inception prim init db)
unfolding evaluate_inception
evaluate_inception-Quiet prim init db = incept-Quiet prim init db (verify_incept prim init.serder)
