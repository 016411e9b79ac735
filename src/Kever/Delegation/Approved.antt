-- ===== src/Kever/Delegation/Approved.antt =====
-- What it takes for a delegation to be verified by a validator that is no party to it.
use keri_ts.Prelude.{
  ◌≡◌, refl, sym, ◌∙◌, ap, Bool, true, false, Option, none, some, String, past, if◌then◌else◌,
  non_empty,
}
use keri_ts.Prelude.Result.{ok, >>=-cases}
use keri_ts.Event.Decision.{VerifiedAttachments, attachment_verified}
use keri_ts.Kever.{Primitives, Kever, Baser}
use keri_ts.Kever.Store.{get_kever}
use keri_ts.Kever.Inputs.{AttachmentValidationInput, make_attachment_escrow_decision}
use keri_ts.Kever.Seals.{DelegatingEventLookup}
use keri_ts.Kever.Seals.Fetch.{fetch_current}
use keri_ts.Kever.Seals.Found.{IsSealing, fetch_current-IsSealing}
use keri_ts.Kever.Delegation.{
  after_fetch, validate_anchor, awaits_local_approval, is_protected, delegate_unless,
  validate_delegation,
}

not_taken : {A : Type 0} (x y : A) {z : A} (b : Bool) → b ≡ false → (if b then x else y) ≡ z → y ≡ z
not_taken x y true off h = absurd (cc off)
not_taken x y false off h = h

-- The delegator has sealed the event.
pub record IsSealed (k : Kever) (input : AttachmentValidationInput) (delpre : String) (db : Baser)
    : Type 0 where
  pub found : DelegatingEventLookup
  pub fetched : (fetch_current db delpre input.serder input.source_seal input.eager).0 ≡ some found
  pub is_sealing : IsSealing db delpre input.serder found

-- The delegator is known, allows delegation, and has sealed the event.
pub record IsApproved (prim : Primitives) (k : Kever) (input : AttachmentValidationInput)
    (delpre : String) (db : Baser) : Type 0 where
  pub delegator : Kever
  pub between : Baser
  pub known : get_kever prim db delpre ≡ ok (some delegator, between)
  pub allows : delegator.do_not_delegate ≡ false
  pub is_sealed : IsSealed k input delpre between

module _ (k : Kever) (input : AttachmentValidationInput) (delpre : String) (v : VerifiedAttachments)
    (db' : Baser) where
  fetch-IsSealed :
      (db : Baser) (found : Option DelegatingEventLookup × Baser)
      → fetch_current db delpre input.serder input.source_seal input.eager ≡ found
      → after_fetch k input delpre found ≡ ok (attachment_verified v, db')
      → IsSealed k input delpre db
  unfolding after_fetch make_attachment_escrow_decision
  fetch-IsSealed db (none, db1) e h = absurd (cc h)
  fetch-IsSealed db (some found, db1) e h =
      let there : (fetch_current db delpre input.serder input.source_seal input.eager).0
          ≡ some found =
        ap (λ (x : Option DelegatingEventLookup × Baser). x.0) e in
      record {
        found = found;
        fetched = there;
        is_sealing =
            fetch_current-IsSealing db delpre input.serder input.source_seal input.eager found
              there;
      }

  anchor-IsSealed :
      (db : Baser) (o : Option Kever)
      → validate_anchor k input db delpre o ≡ ok (attachment_verified v, db')
      → (delegator : Kever) × (o ≡ some delegator)
        × (delegator.do_not_delegate ≡ false)
        × IsSealed k input delpre db
  unfolding validate_anchor make_attachment_escrow_decision
  anchor-IsSealed db none h = absurd (cc h)
  anchor-IsSealed db (some delegator) h =
      past delegator.do_not_delegate h (λ e. absurd (cc e))
        λ allows h1. (
          delegator,
          refl,
          allows,
          fetch-IsSealed db (fetch_current db delpre input.serder input.source_seal input.eager)
              refl h1,
        )

-- Where a validator that is no local controller, member or witness verifies a delegated event, it
-- knows the delegator, who allows delegation, and has found a stored event of the delegator that stands
-- in its log of accepted events, one of whose event seals has the prefix, number and digest of the
-- delegated event.
pub validate_delegation-IsApproved :
    (prim : Primitives) (k : Kever) (input : AttachmentValidationInput) (delpre : String)
    (v : VerifiedAttachments) (db db' : Baser)
    → non_empty input.delpre ≡ some delpre
    → is_protected k input.wits db ≡ false
    → validate_delegation prim k input db ≡ ok (attachment_verified v, db')
    → IsApproved prim k input delpre db
unfolding validate_delegation delegate_unless make_attachment_escrow_decision
validate_delegation-IsApproved prim k input delpre v db db' delegated outside h =
    past (awaits_local_approval k input db delpre)
      (ap (delegate_unless prim k input db) (sym delegated) ∙ h) (λ e. absurd (cc e))
      λ no_wait h1.
        >>=-cases (get_kever prim db delpre) _
          (not_taken _ _ (is_protected k input.wits db) outside h1)
          λ known ek h3.
            let (delegator, there, allows, sealed) =
              anchor-IsSealed k input delpre v db' known.1 known.0 h3 in
            record {
              delegator = delegator;
              between = known.1;
              known = ek ∙ ap (λ (o : Option Kever). ok (o, known.1)) there;
              allows = allows;
              is_sealed = sealed;
            }
