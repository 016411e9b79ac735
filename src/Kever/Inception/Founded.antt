-- ===== src/Kever/Inception/Founded.antt =====
-- What it takes for an inception to be accepted.
use keri_ts.Prelude.{
  ℕ, ◌≡◌, refl, ◌∙◌, ap, true, false, not, ◌&&◌, ◌||◌, Option, none, some, List, ltb, ◌==◌, length,
  or_else, is_some, truthy, past, arith,
}
use keri_ts.Prelude.Sets.{string_eq, IsUnique, has_unique_entries, has_unique_entries_iff}
use keri_ts.Prelude.Result.{ok, >>=-cases}
use keri_ts.Event.{Serder, KeverEventInit}
use keri_ts.Event.Decision.{
  RejectKind, AgentCue, KeverTransition, VerifiedAttachments, AttachmentDecision,
  attachment_verified, attachment_escrow, attachment_reject, kever_accept,
}
use keri_ts.Kever.{Primitives, Kever, Baser, has_valid_threshold_material}
use keri_ts.Kever.Load.{load_state}
use keri_ts.Kever.Backers.{toader_fits, is_inceptive}
use keri_ts.Kever.Backers.Rotated.{IsFit, toader_fits-IsFit}
use keri_ts.Kever.Attachments.{validate_attachments}
use keri_ts.Kever.Inputs.{from_attachment_decision}
use keri_ts.Kever.Inception.{
  verify_incept, provisional_state, inception_input, inception_transition, conclude_inception,
  incept_unless, evaluate_inception,
}

-- The body of an inception that nothing is wrong with.
pub record IsInceptionBody (prim : Primitives) (serder : Serder) : Type 0 where
  pub has_pre : truthy serder.pre ≡ true
  pub prefix : prim.is_prefix (or_else serder.pre "") ≡ true
  pub has_said : truthy serder.said ≡ true
  pub number : serder.sn ≡ some 0
  pub kind : is_inceptive serder ≡ true
  pub material : has_valid_threshold_material serder.tholder (length serder.verfers) ≡ true
  pub unique_backs : IsUnique serder.backs
  pub threshold : IsFit (or_else serder.bner 0) (length serder.backs)
  pub nontransferable :
      prim.is_transferable (or_else serder.pre "") ≡ false
      → (length serder.ndigers ≡ 0) × (length serder.backs ≡ 0) × (serder.seals ≡ 0)

number-eq : (o : Option ℕ) → is_some o ≡ true → (or_else o 0 == 0) ≡ true → o ≡ some 0
number-eq none h k = cc
number-eq (some n) h k = ap some (ground (arith, k))

pub verify-IsInceptionBody :
    (prim : Primitives) (serder : Serder)
    → verify_incept prim serder ≡ none
    → IsInceptionBody prim serder
unfolding verify_incept
verify-IsInceptionBody prim serder h =
    let transferable = prim.is_transferable (or_else serder.pre "") in
    past (not (truthy serder.pre)) h (λ e. absurd (cc e))
      λ h1 r1.
        past (not (prim.is_prefix (or_else serder.pre ""))) r1 (λ e. absurd (cc e))
          λ h2 r2.
            past (not (truthy serder.said) || not (is_some serder.sn)) r2 (λ e. absurd (cc e))
              λ h3 r3.
                past (not (is_inceptive serder)) r3 (λ e. absurd (cc e))
                  λ h4 r4.
                    past (not (or_else serder.sn 0 == 0)) r4 (λ e. absurd (cc e))
                      λ h5 r5.
                        past
                          (not
                            (has_valid_threshold_material serder.tholder (length serder.verfers)))
                          r5 (λ e. absurd (cc e))
                          λ h6 r6.
                            past (not transferable && ltb 0 (length serder.ndigers)) r6
                              (λ e. absurd (cc e))
                              λ h7 r7.
                                past (not transferable && ltb 0 (length serder.backs)) r7
                                  (λ e. absurd (cc e))
                                  λ h8 r8.
                                    past (not (has_unique_entries serder.backs)) r8
                                      (λ e. absurd (cc e))
                                      λ h9 r9.
                                        past
                                          (not (
                                            toader_fits (or_else serder.bner 0)
                                              (length serder.backs)))
                                          r9 (λ e. absurd (cc e))
                                          λ h10 r10.
                                            past (not transferable && ltb 0 serder.seals) r10
                                              (λ e. absurd (cc e))
                                              λ h11 r11. record {
                                                has_pre = ground (arith, h1);
                                                prefix = ground (arith, h2);
                                                has_said = ground (arith, h3);
                                                number =
                                                    number-eq serder.sn (ground (arith, h3))
                                                      (ground (arith, h5));
                                                kind = ground (arith, h4);
                                                material = ground (arith, h6);
                                                unique_backs =
                                                    (has_unique_entries_iff serder.backs).0
                                                      (ground (arith, h9));
                                                threshold =
                                                    toader_fits-IsFit (or_else serder.bner 0)
                                                      (length serder.backs) (ground (arith, h10));
                                                nontransferable = λ fixed. (
                                                  ground (arith, h7, fixed),
                                                  ground (arith, h8, fixed),
                                                  ground (arith, h11, fixed),
                                                );
                                              }

-- An inception that was accepted: its body, the live state of its key state, and its attachments.
pub record IsFounded (prim : Primitives) (init : KeverEventInit) (t : KeverTransition)
    (db db' : Baser) : Type 0 where
  pub body : IsInceptionBody prim init.serder
  pub scratch : Kever
  pub loaded : load_state prim (provisional_state prim init) init.serder ≡ ok scratch
  pub attachments : VerifiedAttachments
  pub verified :
      validate_attachments prim scratch (inception_input init) db
      ≡ ok (attachment_verified attachments, db')
  pub transition : t ≡ inception_transition prim init attachments

conclude-eq :
    (prim : Primitives) (init : KeverEventInit) (d : AttachmentDecision) (t : KeverTransition)
    (cues : List AgentCue)
    → conclude_inception prim init d ≡ kever_accept t cues
    → (v : VerifiedAttachments) × (d ≡ attachment_verified v)
      × (t ≡ inception_transition prim init v)
unfolding conclude_inception from_attachment_decision
conclude-eq prim init (attachment_verified v) t cues h = (v, refl, cc h)
conclude-eq prim init (attachment_escrow reason i c) t cues h = absurd (cc h)
conclude-eq prim init (attachment_reject code) t cues h = absurd (cc h)

incept-IsFounded :
    (prim : Primitives) (init : KeverEventInit) (t : KeverTransition) (cues : List AgentCue)
    (db db' : Baser) (fault : Option RejectKind)
    → verify_incept prim init.serder ≡ fault
    → incept_unless prim init db fault ≡ ok (kever_accept t cues, db')
    → IsFounded prim init t db db'
unfolding incept_unless
incept-IsFounded prim init t cues db db' (some code) e h = absurd (cc h)
incept-IsFounded prim init t cues db db' none e h =
    >>=-cases (load_state prim (provisional_state prim init) init.serder) _ h λ scratch es h1.
      >>=-cases (validate_attachments prim scratch (inception_input init) db) _ h1 λ r er done.
        let (v, verified, same) = conclude-eq prim init r.0 t cues (cc done) in
        record {
          body = verify-IsInceptionBody prim init.serder e;
          scratch = scratch;
          loaded = es;
          attachments = v;
          verified = er ∙ cc (done, verified);
          transition = same;
        }

-- An inception that `evaluateInception` accepts has a prefix, a digest and number zero, keys enough
-- for its threshold, a witness list with no duplicate and a witness threshold within it, and of a
-- non-transferable identifier no next digests, witnesses or seals; and its attachments were
-- verified against the live state of its own key state.
pub inception-IsFounded :
    (prim : Primitives) (init : KeverEventInit) (t : KeverTransition) (cues : List AgentCue)
    (db db' : Baser)
    → evaluate_inception prim init db ≡ ok (kever_accept t cues, db')
    → IsFounded prim init t db db'
unfolding evaluate_inception
inception-IsFounded prim init t cues db db' h =
    incept-IsFounded prim init t cues db db' (verify_incept prim init.serder) refl h
