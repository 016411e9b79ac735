-- ===== src/Kever/Update/Accepted.antt =====
-- Which events `evaluateUpdate` accepts, and the place in the log that they take.
use mathlib.Core.Path.{subst}
use keri_ts.Prelude.{
  ℕ, ◌+◌, ◌≡◌, refl, sym, ◌∙◌, ap, ◌⊎◌, inl, inr, Bool, true, false, not, ◌&&◌, ◌||◌, Option, none,
  some, List, String, str_eq, eq_iff, ltb, leb, length, equals, equals-some, non_empty,
  non_empty-eq, or_else, past, Bool-cases, arith,
}
use keri_ts.Prelude.Result.{ok, >>=-cases}
use keri_ts.Event.{KeverEventInit}
use keri_ts.Event.Decision.{
  RejectKind, AgentCue, KeverTransition, VerifiedAttachments, AttachmentDecision,
  attachment_verified, attachment_escrow, attachment_reject, kever_accept,
}
use keri_ts.Kever.{Primitives, Kever, Baser, has_valid_threshold_material}
use keri_ts.Kever.Inputs.{from_attachment_decision, make_escrow_decision}
use keri_ts.Kever.Backers.{DerivedBacksResult, derive_backs_decision}
use keri_ts.Kever.Attachments.{validate_attachments}
use keri_ts.Kever.Rotation.{
  kever_said, prior_fault, rotation_input, rotation_transition, conclude_rotation, rotate_backs,
  rotate, rotate_unless, evaluate_rotation,
}
use keri_ts.Kever.Update.Chain.{IsNext, HasPlace, fault-HasPlace, prior-IsNext}
use keri_ts.Kever.Update.{
  interaction_input, interaction_transition, conclude_interaction, evaluate_interaction,
  route_update, route_sn, route_ilk, evaluate_update,
}

-- An interaction that was accepted.
pub record IsInteraction (prim : Primitives) (k : Kever) (init : KeverEventInit)
    (t : KeverTransition) (db db' : Baser) : Type 0 where
  pub not_est_only : k.est_only ≡ false
  pub place : IsNext k init.serder t.sn
  pub attachments : VerifiedAttachments
  pub verified :
      validate_attachments prim k (interaction_input k init init.local) db
      ≡ ok (attachment_verified attachments, db')
  pub transition : t ≡ interaction_transition k init init.local t.sn attachments

-- A rotation that was accepted.
pub record IsRotationOf (prim : Primitives) (k : Kever) (init : KeverEventInit)
    (t : KeverTransition) (db db' : Baser) : Type 0 where
  pub place : HasPlace k init.serder t.sn db
  pub kind : str_eq (or_else init.serder.ilk "rot") "drt" ≡ k.delegated
  pub material :
      has_valid_threshold_material init.serder.tholder (length init.serder.verfers) ≡ true
  pub derived : DerivedBacksResult
  pub backs : derive_backs_decision k.wits init.serder ≡ some derived
  pub attachments : VerifiedAttachments
  pub verified :
      validate_attachments prim k (rotation_input k init init.local derived) db
      ≡ ok (attachment_verified attachments, db')
  pub transition :
      t
      ≡ rotation_transition k init init.local
          (or_else init.serder.ilk "rot")
          t.sn
          derived
          attachments

conclude_rotation-eq :
    (k : Kever) (init : KeverEventInit) (local : Bool) (ilk : String) (sn : ℕ)
    (derived : DerivedBacksResult) (d : AttachmentDecision) (t : KeverTransition)
    (cues : List AgentCue)
    → conclude_rotation k init local ilk sn derived d ≡ kever_accept t cues
    → (v : VerifiedAttachments) × (d ≡ attachment_verified v)
      × (t ≡ rotation_transition k init local ilk sn derived v)
unfolding conclude_rotation from_attachment_decision
conclude_rotation-eq k init local ilk sn derived (attachment_verified v) t cues h = (v, refl, cc h)
conclude_rotation-eq k init local ilk sn derived (attachment_escrow reason i c) t cues h =
    absurd (cc h)
conclude_rotation-eq k init local ilk sn derived (attachment_reject code) t cues h = absurd (cc h)

conclude_interaction-eq :
    (k : Kever) (init : KeverEventInit) (local : Bool) (sn : ℕ) (d : AttachmentDecision)
    (t : KeverTransition) (cues : List AgentCue)
    → conclude_interaction k init local sn d ≡ kever_accept t cues
    → (v : VerifiedAttachments) × (d ≡ attachment_verified v)
      × (t ≡ interaction_transition k init local sn v)
unfolding conclude_interaction from_attachment_decision
conclude_interaction-eq k init local sn (attachment_verified v) t cues h = (v, refl, cc h)
conclude_interaction-eq k init local sn (attachment_escrow reason i c) t cues h = absurd (cc h)
conclude_interaction-eq k init local sn (attachment_reject code) t cues h = absurd (cc h)

module _ (prim : Primitives) (k : Kever) (init : KeverEventInit) (t : KeverTransition)
    (cues : List AgentCue) (db db' : Baser) where
  backs-IsRotationOf :
      (sn : ℕ) (found : Option DerivedBacksResult)
      → HasPlace k init.serder sn db
      → str_eq (or_else init.serder.ilk "rot") "drt" ≡ k.delegated
      → has_valid_threshold_material init.serder.tholder (length init.serder.verfers) ≡ true
      → derive_backs_decision k.wits init.serder ≡ found
      → rotate_backs prim k init init.local (or_else init.serder.ilk "rot") sn db found
        ≡ ok (kever_accept t cues, db')
      → (t.sn ≡ sn) × IsRotationOf prim k init t db db'
  unfolding rotate_backs
  backs-IsRotationOf sn none place kind material e h = absurd (cc h)
  backs-IsRotationOf sn (some derived) place kind material e h =
      >>=-cases (validate_attachments prim k (rotation_input k init init.local derived) db) _ h
        λ r er done.
          let (v, verified, same) =
            conclude_rotation-eq k init init.local (or_else init.serder.ilk "rot") sn derived r.0 t
              cues (cc done) in
          let same_sn : t.sn ≡ sn = ap (λ (x : KeverTransition). x.sn) same in
          (
            same_sn,
            record {
              place = subst (λ n. HasPlace k init.serder n db) (sym same_sn) place;
              kind = kind;
              material = material;
              derived = derived;
              backs = e;
              attachments = v;
              verified = er ∙ cc (done, verified);
              transition =
                  same
                  ∙ ap
                      (λ n.
                        rotation_transition k init init.local (or_else init.serder.ilk "rot") n
                          derived v)
                      (sym same_sn);
            },
          )

  rotate-IsRotationOf :
      (sn : ℕ) (fault : Option RejectKind)
      → (fault ≡ none → HasPlace k init.serder sn db)
      → str_eq (or_else init.serder.ilk "rot") "drt" ≡ k.delegated
      → rotate_unless prim k init init.local (or_else init.serder.ilk "rot") sn db fault
        ≡ ok (kever_accept t cues, db')
      → (t.sn ≡ sn) × IsRotationOf prim k init t db db'
  unfolding rotate_unless rotate
  rotate-IsRotationOf sn (some code) place kind h = absurd (cc h)
  rotate-IsRotationOf sn none place kind h =
      past (not (has_valid_threshold_material init.serder.tholder (length init.serder.verfers))) h
        (λ e. absurd (cc e))
        λ material h1.
          backs-IsRotationOf sn (derive_backs_decision k.wits init.serder) (place refl) kind
            (ground (arith, material)) refl h1

  evaluate_rotation-IsRotationOf :
      (sn : ℕ)
      → (str_eq (or_else init.serder.ilk "rot") "rot"
          || str_eq (or_else init.serder.ilk "rot") "drt")
        ≡ true
      → evaluate_rotation prim k init init.local sn db ≡ ok (kever_accept t cues, db')
      → (t.sn ≡ sn) × IsRotationOf prim k init t db db'
  unfolding evaluate_rotation make_escrow_decision
  evaluate_rotation-IsRotationOf sn is_rotation h =
      let ilk : String = or_else init.serder.ilk "rot" in
      past (k.delegated && not (str_eq ilk "drt")) h (λ e. absurd (cc e))
        λ first h1.
          past (not k.delegated && str_eq ilk "drt") h1 (λ e. absurd (cc e))
            λ second h2.
              past (ltb (k.sn + 1) sn) h2 (λ e. absurd (cc e))
                λ near h3. >>=-cases (prior_fault k init.serder ilk sn db) _ h3 λ fault ef h4.
                  rotate-IsRotationOf sn fault
                    (λ e.
                      fault-HasPlace k init.serder ilk sn db refl is_rotation (ground (arith, near))
                        (ef ∙ ap ok e))
                    (ground (arith, first, second)) h4

  evaluate_interaction-IsInteraction :
      (sn : ℕ)
      → evaluate_interaction prim k init init.local sn db ≡ ok (kever_accept t cues, db')
      → (t.sn ≡ sn) × IsInteraction prim k init t db db'
  unfolding evaluate_interaction make_escrow_decision
  evaluate_interaction-IsInteraction sn h =
      past k.est_only h (λ e. absurd (cc e))
        λ allowed h1.
          past (ltb (k.sn + 1) sn) h1 (λ e. absurd (cc e))
            λ near h2.
              past (leb sn k.sn) h2 (λ e. absurd (cc e))
                λ later h3.
                  past (not (equals init.serder.prior (kever_said k))) h3 (λ e. absurd (cc e))
                    λ same h4.
                      >>=-cases
                        (validate_attachments prim k (interaction_input k init init.local) db) _ h4
                        λ r er done.
                          let (v, verified, equal) =
                            conclude_interaction-eq k init init.local sn r.0 t cues (cc done) in
                          let same_sn : t.sn ≡ sn = ap (λ (x : KeverTransition). x.sn) equal in
                          (
                            same_sn,
                            record {
                              not_est_only = allowed;
                              place =
                                  subst (λ n. IsNext k init.serder n) (sym same_sn)
                                    (prior-IsNext k init.serder sn later (ground (arith, near))
                                      (ground (arith, same)));
                              attachments = v;
                              verified = er ∙ cc (done, verified);
                              transition =
                                  equal
                                  ∙ ap (λ n. interaction_transition k init init.local n v)
                                      (sym same_sn);
                            },
                          )

-- The two types of a rotation: the delegated one is of a delegated identifier.
abbrev pub Rotates : Kever → Option String → Type 0
Rotates k ilk =
    ((ilk ≡ some "rot") × (k.delegated ≡ false)) ⊎ ((ilk ≡ some "drt") × (k.delegated ≡ true))

rotation-Rotates :
    (k : Kever) (ilk : String)
    → (str_eq ilk "rot" || str_eq ilk "drt") ≡ true
    → str_eq ilk "drt" ≡ k.delegated
    → Rotates k (some ilk)
rotation-Rotates k ilk either kind = elim (Bool-cases (str_eq ilk "drt")) [
  | inl drt ↦ inr (ap some ((eq_iff ilk "drt").0 drt), sym kind ∙ drt)
  | inr other ↦
      inl (ap some ((eq_iff ilk "rot").0 (ground (arith, either, other))), sym kind ∙ other)
]

-- An accepted event of the log: of the same identifier, transferable, with its number; an
-- interaction, or a rotation.
pub record IsUpdate (prim : Primitives) (k : Kever) (init : KeverEventInit) (t : KeverTransition)
    (db db' : Baser) : Type 0 where
  pub transferable : k.transferable ≡ true
  pub same_pre : init.serder.pre ≡ some k.pre
  pub numbered : init.serder.sn ≡ some t.sn
  pub event :
      ((init.serder.ilk ≡ some "ixn") × IsInteraction prim k init t db db')
      ⊎ (Rotates k init.serder.ilk × IsRotationOf prim k init t db db')

module _ (prim : Primitives) (k : Kever) (init : KeverEventInit) (t : KeverTransition)
    (cues : List AgentCue) (db db' : Baser) where
  abbrev HasKind : String → Type 0
  HasKind ilk =
      ((ilk ≡ "ixn") × IsInteraction prim k init t db db')
      ⊎ (Rotates k (some ilk) × IsRotationOf prim k init t db db')

  route_update-HasKind :
      (ilk : String) (sn : ℕ)
      → init.serder.ilk ≡ some ilk
      → route_update prim k init ilk sn db ≡ ok (kever_accept t cues, db')
      → (t.sn ≡ sn) × HasKind ilk
  unfolding route_update
  route_update-HasKind ilk sn e h = elim (Bool-cases (str_eq ilk "rot" || str_eq ilk "drt")) [
    | inl rotation ↦
        let (same, r) =
          evaluate_rotation-IsRotationOf prim k init t cues db db' sn
            (ap
                (λ (o : Option String).
                  str_eq (or_else o "rot") "rot" || str_eq (or_else o "rot") "drt")
                e
              ∙ rotation)
            (ground (arith, rotation, h)) in
        (
          same,
          inr (
            rotation-Rotates k ilk rotation
                (ap (λ (o : Option String). str_eq (or_else o "rot") "drt") (sym e) ∙ r.kind),
            r,
          ),
        )
    | inr others ↦ elim (Bool-cases (str_eq ilk "ixn")) [
      | inl ixn ↦
          let (same, i) =
            evaluate_interaction-IsInteraction prim k init t cues db db' sn
              (ground (arith, others, ixn, h)) in
          (same, inl ((eq_iff ilk "ixn").0 ixn, i))
      | inr unknown ↦ absurd (ground (arith, others, unknown, h))
    ]
  ]

  route_sn-HasKind :
      (ilk : String) (found : Option ℕ)
      → init.serder.ilk ≡ some ilk
      → route_sn prim k init db ilk found ≡ ok (kever_accept t cues, db')
      → (found ≡ some t.sn) × HasKind ilk
  unfolding route_sn
  route_sn-HasKind ilk none e h = absurd (cc h)
  route_sn-HasKind ilk (some sn) e h =
      let (same, event) = route_update-HasKind ilk sn e h in (ap some (sym same), event)

  route_ilk-HasKind :
      (found : Option String)
      → non_empty init.serder.ilk ≡ found
      → route_ilk prim k init db found ≡ ok (kever_accept t cues, db')
      → (init.serder.sn ≡ some t.sn)
        × (((init.serder.ilk ≡ some "ixn") × IsInteraction prim k init t db db')
            ⊎ (Rotates k init.serder.ilk × IsRotationOf prim k init t db db'))
  unfolding route_ilk
  route_ilk-HasKind none e h = absurd (cc h)
  route_ilk-HasKind (some ilk) e h =
      let there = non_empty-eq init.serder.ilk ilk e in
      let (numbered, event) = route_sn-HasKind ilk init.serder.sn there h in
      (
        numbered,
        elim event [
          | inl (same, i) ↦ inl (there ∙ ap some same, i)
          | inr (kind, r) ↦ inr (subst (Rotates k) (sym there) kind, r)
        ],
      )

-- An event that `evaluateUpdate` accepts is of a transferable identifier, carries its prefix and the
-- number of the transition, and is one of two. Either it is an interaction of an identifier that is
-- not establishment-only: the next number, with the current event as its prior. Or it is a rotation
-- (`rot`) of an identifier that is not delegated or a delegated rotation (`drt`) of one that is: with
-- the next number and the current event as its prior, or as a recovery, with a number that is taken
-- but not before the latest establishment and the accepted event before it as its prior; a recovery
-- `rot` comes after the latest establishment, where the current event is an interaction. Its keys fit
-- its threshold, its cuts and adds fit the witness list, and its attachments were verified.
pub evaluate_update-IsUpdate :
    (prim : Primitives) (k : Kever) (init : KeverEventInit) (t : KeverTransition)
    (cues : List AgentCue) (db db' : Baser)
    → evaluate_update prim k init db ≡ ok (kever_accept t cues, db')
    → IsUpdate prim k init t db db'
unfolding evaluate_update
evaluate_update-IsUpdate prim k init t cues db db' h =
    past (not k.transferable) h (λ e. absurd (cc e))
      λ moves h1.
        past (not (equals init.serder.pre k.pre)) h1 (λ e. absurd (cc e))
          λ same h2.
            let (numbered, event) =
              route_ilk-HasKind prim k init t cues db db' (non_empty init.serder.ilk) refl h2 in
            record {
              transferable = ground (arith, moves);
              same_pre = equals-some init.serder.pre k.pre (ground (arith, same));
              numbered = numbered;
              event = event;
            }
