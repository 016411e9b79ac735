-- ===== src/Kever/About.antt =====
-- What a decision of the state machine says of its event: an accepted transition records the event
-- itself, under the event's prefix, digest and number.
use keri_ts.Prelude.{
  sym, ◌∙◌, List, [], ℕ, ◌+◌, ◌≡◌, refl, ap, Bool, true, false, not, ◌&&◌, ◌||◌, Option, none, some,
  String, str_eq, ltb, leb, length, or_else, equals, equals-some, non_empty, arith,
}
use keri_ts.Event.{Serder, KeverEventInit}
use keri_ts.Event.Decision.{
  EscrowKind, ooo, AgentCue, RejectKind, KeverTransition, AttachmentDecision, attachment_verified,
  attachment_escrow, attachment_reject, KeverDecision, kever_accept, kever_duplicate, kever_escrow,
  kever_reject,
}
use keri_ts.Kever.{Primitives, Kever, Baser, has_valid_threshold_material}
use keri_ts.Kever.Load.{load_state}
use keri_ts.Kever.Attachments.Held.{IsHeld, Holds, attachments-Holds}
use keri_ts.Kever.Inception.Founded.{verify-IsInceptionBody}
use keri_ts.Kever.Store.Yields.{bind-Yields, Yields, ok-Yields, if-Yields, then-Yields}
use keri_ts.Kever.Inputs.{from_attachment_decision, make_escrow_decision}
use keri_ts.Kever.Attachments.{validate_attachments}
use keri_ts.Kever.Backers.{DerivedBacksResult, derive_backs_decision}
use keri_ts.Kever.Rotation.{
  kever_said, prior_fault, rotation_input, conclude_rotation, rotate_backs, rotate, rotate_unless,
  evaluate_rotation,
}
use keri_ts.Kever.Update.{
  interaction_input, conclude_interaction, evaluate_interaction, route_update, route_sn, route_ilk,
  evaluate_update,
}
use keri_ts.Kever.Inception.{
  provisional_state, inception_input, initial_key_state, conclude_inception, incept_unless,
  verify_incept, evaluate_inception,
}

-- The transition is the event's: it logs the event as first-seen, and its state is the prefix's at
-- the event's digest and number.
pub record IsTransitionOf (serder : Serder) (t : KeverTransition) : Type 0 where
  pub logs : t.log.serder ≡ serder
  pub first_seen : t.log.first ≡ true
  pub pre : or_else serder.pre "" ≡ t.pre
  pub said : or_else serder.said "" ≡ t.said
  pub numbered : serder.sn ≡ some t.sn
  pub state_sn : t.state.s ≡ some t.sn
  pub state_pre : t.state.i ≡ some t.pre
  pub state_said : t.state.d ≡ some t.said

-- What a decision logs: an accepted event as first-seen, and a duplicate as seen before; what it
-- escrows is the event too.
abbrev pub IsAbout : Serder → KeverDecision → Type 0
IsAbout serder (kever_accept t cues) = IsTransitionOf serder t
IsAbout serder (kever_duplicate kind none) = Unit
IsAbout serder (kever_duplicate kind (some log)) = (log.serder ≡ serder) × (log.first ≡ false)
IsAbout serder (kever_escrow reason instruction cues) = IsHeld serder reason instruction
IsAbout serder (kever_reject code) = Unit

attachment-IsAbout :
    (serder : Serder) (d : AttachmentDecision)
    → Holds serder d
    → IsAbout serder (from_attachment_decision d)
unfolding from_attachment_decision
attachment-IsAbout serder (attachment_verified v) h = tt
attachment-IsAbout serder (attachment_escrow reason instruction cues) h = h
attachment-IsAbout serder (attachment_reject code) h = tt

escrow-IsAbout :
    (k : Kever) (kind : EscrowKind) (init : KeverEventInit) (cues : List AgentCue)
    → IsAbout init.serder (make_escrow_decision k kind init cues)
unfolding make_escrow_decision
escrow-IsAbout k kind init cues = record {
  same_reason = refl;
  event = refl;
  pre = λ p named. ap (λ o. or_else o k.pre) named;
  said = refl;
  sn = refl;
}

module _ (prim : Primitives) (k : Kever) (init : KeverEventInit) (fresh : init.check ≡ false)
    (same_pre : or_else init.serder.pre "" ≡ k.pre) where
  About : KeverDecision → Type 0
  About = IsAbout init.serder

  concluded-IsAbout :
      (local : Bool) (ilk : String) (sn : ℕ) (derived : DerivedBacksResult) (d : AttachmentDecision)
      → init.serder.sn ≡ some sn
      → Holds init.serder d
      → About (conclude_rotation k init local ilk sn derived d)
  unfolding About conclude_rotation
  concluded-IsAbout local ilk sn derived (attachment_verified v) numbered h = record {
    logs = refl;
    first_seen = ap not fresh;
    pre = same_pre;
    said = refl;
    numbered = numbered;
    state_sn = refl;
    state_pre = refl;
    state_said = refl;
  }
  concluded-IsAbout local ilk sn derived (attachment_escrow reason instruction cues) numbered h =
      attachment-IsAbout init.serder (attachment_escrow reason instruction cues) h
  concluded-IsAbout local ilk sn derived (attachment_reject code) numbered h =
      attachment-IsAbout init.serder (attachment_reject code) h

  interaction-IsAbout :
      (local : Bool) (sn : ℕ) (d : AttachmentDecision)
      → init.serder.sn ≡ some sn
      → Holds init.serder d
      → About (conclude_interaction k init local sn d)
  unfolding About conclude_interaction
  interaction-IsAbout local sn (attachment_verified v) numbered h = record {
    logs = refl;
    first_seen = ap not fresh;
    pre = same_pre;
    said = refl;
    numbered = numbered;
    state_sn = refl;
    state_pre = refl;
    state_said = refl;
  }
  interaction-IsAbout local sn (attachment_escrow reason instruction cues) numbered h =
      attachment-IsAbout init.serder (attachment_escrow reason instruction cues) h
  interaction-IsAbout local sn (attachment_reject code) numbered h =
      attachment-IsAbout init.serder (attachment_reject code) h

  backs-IsAbout :
      (local : Bool) (ilk : String) (sn : ℕ) (db : Baser) (derived : Option DerivedBacksResult)
      → init.serder.sn ≡ some sn
      → Yields About (rotate_backs prim k init local ilk sn db derived)
  unfolding rotate_backs About
  backs-IsAbout local ilk sn db none numbered = ok-Yields About _ db tt
  backs-IsAbout local ilk sn db (some derived) numbered =
      bind-Yields About (validate_attachments prim k (rotation_input k init local derived) db) _
        λ r e. ok-Yields About (conclude_rotation k init local ilk sn derived r.0) r.1 (
          concluded-IsAbout local ilk sn derived r.0 numbered
            (attachments-Holds prim k (rotation_input k init local derived) db r e))

  rotate-IsAbout :
      (local : Bool) (ilk : String) (sn : ℕ) (db : Baser) (fault : Option RejectKind)
      → init.serder.sn ≡ some sn
      → Yields About (rotate_unless prim k init local ilk sn db fault)
  unfolding rotate_unless rotate About
  rotate-IsAbout local ilk sn db (some code) numbered = ok-Yields About _ db tt
  rotate-IsAbout local ilk sn db none numbered =
      if-Yields About
        (not (has_valid_threshold_material init.serder.tholder (length init.serder.verfers))) _ _
        (λ _. ok-Yields About _ db tt)
        (λ _. backs-IsAbout local ilk sn db (derive_backs_decision k.wits init.serder) numbered)

  rotation-IsAbout :
      (local : Bool) (sn : ℕ) (db : Baser)
      → init.serder.sn ≡ some sn
      → Yields About (evaluate_rotation prim k init local sn db)
  unfolding evaluate_rotation make_escrow_decision About
  rotation-IsAbout local sn db numbered =
      let ilk : String = or_else init.serder.ilk "rot" in
      if-Yields About (k.delegated && not (str_eq ilk "drt")) _ _ (λ _. ok-Yields About _ db tt)
        λ _.
          if-Yields About (not k.delegated && str_eq ilk "drt") _ _ (λ _. ok-Yields About _ db tt)
            λ _.
              if-Yields About (ltb (k.sn + 1) sn) _ _
                (λ _. ok-Yields About _ db (escrow-IsAbout k ooo init []))
                λ _.
                  then-Yields About (prior_fault k init.serder ilk sn db) _
                    λ fault. rotate-IsAbout local ilk sn db fault numbered

  evaluate_interaction-IsAbout :
      (local : Bool) (sn : ℕ) (db : Baser)
      → init.serder.sn ≡ some sn
      → Yields About (evaluate_interaction prim k init local sn db)
  unfolding evaluate_interaction make_escrow_decision About
  evaluate_interaction-IsAbout local sn db numbered =
      if-Yields About k.est_only _ _ (λ _. ok-Yields About _ db tt)
        λ _.
          if-Yields About (ltb (k.sn + 1) sn) _ _
            (λ _. ok-Yields About _ db (escrow-IsAbout k ooo init []))
            λ _.
              if-Yields About (leb sn k.sn) _ _ (λ _. ok-Yields About _ db tt)
                λ _.
                  if-Yields About (not (equals init.serder.prior (kever_said k))) _ _
                    (λ _. ok-Yields About _ db tt)
                    λ _.
                      bind-Yields About
                        (validate_attachments prim k (interaction_input k init local) db) _
                        λ r e. ok-Yields About (conclude_interaction k init local sn r.0) r.1 (
                          interaction-IsAbout local sn r.0 numbered
                            (attachments-Holds prim k (interaction_input k init local) db r e))

  route-IsAbout :
      (db : Baser) (ilk : String) (sn : Option ℕ)
      → init.serder.sn ≡ sn
      → Yields About (route_sn prim k init db ilk sn)
  unfolding route_sn route_update About
  route-IsAbout db ilk none numbered = ok-Yields About _ db tt
  route-IsAbout db ilk (some sn) numbered =
      if-Yields About (str_eq ilk "rot" || str_eq ilk "drt") _ _
        (λ _. rotation-IsAbout init.local sn db numbered)
        λ _.
          if-Yields About (str_eq ilk "ixn") _ _
            (λ _. evaluate_interaction-IsAbout init.local sn db numbered)
            λ _. ok-Yields About _ db tt

  routed-IsAbout : (db : Baser) (ilk : Option String) → Yields About (route_ilk prim k init db ilk)
  unfolding route_ilk About
  routed-IsAbout db none = ok-Yields About _ db tt
  routed-IsAbout db (some ilk) = route-IsAbout db ilk init.serder.sn refl

pub evaluate_update-IsAbout :
    (prim : Primitives) (k : Kever) (init : KeverEventInit) (db : Baser)
    → init.check ≡ false
    → Yields (IsAbout init.serder) (evaluate_update prim k init db)
unfolding evaluate_update About
evaluate_update-IsAbout prim k init db fresh =
    if-Yields (IsAbout init.serder) (not k.transferable) _ _
      (λ _. ok-Yields (IsAbout init.serder) _ db tt)
      λ _.
        if-Yields (IsAbout init.serder) (not (equals init.serder.pre k.pre)) _ _
          (λ _. ok-Yields (IsAbout init.serder) _ db tt)
          λ named.
            routed-IsAbout prim k init fresh
              (ap (λ o. or_else o "") (equals-some init.serder.pre k.pre (ground (arith, named))))
              db (non_empty init.serder.ilk)

inception-IsAbout :
    (prim : Primitives) (init : KeverEventInit) (d : AttachmentDecision)
    → init.check ≡ false
    → init.serder.sn ≡ some 0
    → Holds init.serder d
    → IsAbout init.serder (conclude_inception prim init d)
unfolding conclude_inception initial_key_state
inception-IsAbout prim init (attachment_verified v) fresh zero h = record {
  logs = refl;
  first_seen = ap not fresh;
  pre = refl;
  said = refl;
  numbered = zero ∙ ap (λ o. some (or_else o 0)) (sym zero);
  state_sn = ap (λ o. some (or_else o 0)) (sym zero);
  state_pre = refl;
  state_said = refl;
}
inception-IsAbout prim init (attachment_escrow reason instruction cues) fresh zero h =
    attachment-IsAbout init.serder (attachment_escrow reason instruction cues) h
inception-IsAbout prim init (attachment_reject code) fresh zero h =
    attachment-IsAbout init.serder (attachment_reject code) h

incept-IsAbout :
    (prim : Primitives) (init : KeverEventInit) (db : Baser) (fault : Option RejectKind)
    → verify_incept prim init.serder ≡ fault
    → init.check ≡ false
    → Yields (IsAbout init.serder) (incept_unless prim init db fault)
unfolding incept_unless
incept-IsAbout prim init db (some code) e fresh = ok-Yields (IsAbout init.serder) _ db tt
incept-IsAbout prim init db none verified fresh =
    then-Yields (IsAbout init.serder) (load_state prim (provisional_state prim init) init.serder) _
      λ scratch.
        bind-Yields (IsAbout init.serder)
          (validate_attachments prim scratch (inception_input init) db) _
          λ r e. ok-Yields (IsAbout init.serder) (conclude_inception prim init r.0) r.1 (
            inception-IsAbout prim init r.0 fresh
              (verify-IsInceptionBody prim init.serder verified).number
              (attachments-Holds prim scratch (inception_input init) db r e))

pub evaluate_inception-IsAbout :
    (prim : Primitives) (init : KeverEventInit) (db : Baser)
    → init.check ≡ false
    → Yields (IsAbout init.serder) (evaluate_inception prim init db)
unfolding evaluate_inception
evaluate_inception-IsAbout prim init db fresh =
    incept-IsAbout prim init db (verify_incept prim init.serder) refl fresh
