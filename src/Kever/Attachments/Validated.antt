-- ===== src/Kever/Attachments/Validated.antt =====
-- What `validateAttachmentsInternal` requires of an event that it verifies, told by the signatures, the
-- thresholds and the parties.
use keri_ts.Threshold.Error.{ThresholdError}
use keri_ts.Kever.Signatures.Exposed.{IsExposed, exposeds-IsExposed}
use keri_ts.Prelude.{
  ℕ, ◌≤◌, ◌≡◌, ◌⊎◌, sym, refl, ◌∙◌, ap, Bool, true, false, not, ◌&&◌, ◌||◌, Option, none, some,
  List, [], length, keep, equals, All, Bool-cases, inl, inr, arith, equals-some,
}
use keri_ts.Prelude.Sets.{nat_eq, has}
use keri_ts.Prelude.Result.{Result, ok, err, ◌>>=◌, >>=-cases}
use keri_ts.Threshold.Tholder.{Tholder, satisfy}
use keri_ts.Event.{Siger}
use keri_ts.Event.Decision.{VerifiedAttachments, attachment_verified}
use keri_ts.Kever.{Primitives, Thrown, bad_threshold, Kever, Baser, has_valid_threshold_material}
use keri_ts.Kever.Store.{
  Step, locally_owned, locally_delegated, locally_membered, locally_witnessed, has_hab,
}
use keri_ts.Kever.Store.Cache.{IsCached, locally_witnessed-cached}
use keri_ts.Kever.Signatures.{
  SignerVerificationResult, exposeds, locally_contributed_indices, verify_indexed_signatures,
}
use keri_ts.Kever.Signatures.Verified.{IsVerification, verify_indexed-IsVerification}
use keri_ts.Kever.Inputs.{AttachmentValidationInput}
use keri_ts.Kever.Delegation.{is_delegated_establishment, is_protected, validate_delegation}
use keri_ts.Kever.Attachments.{
  Stripped, strip, strip_membered, is_misfit, satisfies, is_rotation, satisfies_prior_next,
  enough_receipts, witness_gate, validate_attachments,
}
use keri_ts.Kever.Attachments.Accepted.{IsAuthorized, validate-IsAuthorized, receipts}
use keri_ts.Kever.Attachments.Protected.{strip-IsCached, unprotected-receipts}

-- The signatures that count: all of them, or, on a nonlocal event of a local member's group, those at
-- no index of a local key.
pub record IsCounted (prim : Primitives) (k : Kever) (input : AttachmentValidationInput)
    (counted : List Siger) (db : Baser) : Type 0 where
  pub all_count :
      (input.local ≡ true) ⊎ (locally_membered db k.pre ≡ false) → counted ≡ input.sigers
  pub remote :
      input.local ≡ false
      → locally_membered db k.pre ≡ true
      → (out : List ℕ) × (after : Baser) × (locally_contributed_indices prim db input.verfers
          ≡ ok (out, after))
        × (counted ≡ keep (λ (siger : Siger). not (has siger.index out)) input.sigers)

-- The verified signatures, their thresholds, and the parties.
pub record IsValidated (prim : Primitives) (k : Kever) (input : AttachmentValidationInput)
    (v : VerifiedAttachments) (db db' : Baser) : Type 0 where
  pub tholder : Tholder
  pub has_tholder : input.tholder ≡ some tholder
  pub fits : tholder.size ≤ length input.verfers
  pub counted : List Siger
  pub is_counted : IsCounted prim k input counted db
  pub signed : SignerVerificationResult
  pub verified : IsVerification prim input.serder.raw input.verfers counted signed
  pub same_sigers : v.sigers ≡ signed.sigers
  pub some_signer : 1 ≤ length v.sigers
  pub controllers : satisfy tholder signed.indices ≡ ok true
  pub prior_next :
      (next : Tholder)
      → k.ntholder ≡ some next
      → input.is_establishment ≡ true
      → (input.serder.ilk ≡ some "rot") ⊎ (input.serder.ilk ≡ some "drt")
      → (shown : List ℕ) × (satisfy next shown ≡ ok true)
        × All (IsExposed prim k.ndigers v.sigers) shown
  pub outsider :
      input.local ≡ false
      → (locally_owned db k.pre ≡ false)
        × (locally_witnessed db input.wits ≡ false)
        × (locally_delegated db input.delpre ≡ true
            → (input.serder.ilk ≡ some "dip") ⊎ (input.serder.ilk ≡ some "drt"))
  pub receipted : SignerVerificationResult
  pub witnessed : IsVerification prim input.serder.raw input.wits input.wigers receipted
  pub same_wigers : v.wigers ≡ receipted.sigers
  pub no_witness : length input.wits ≡ 0 → input.toader ≡ 0
  pub enough :
      1 ≤ length input.wits
      → is_protected k input.wits db ≡ false
      → (1 ≤ input.toader) × (input.toader ≤ length input.wits) × (input.toader ≤ length v.wigers)
  pub between : Baser
  pub cached : IsCached db between
  pub delegation : VerifiedAttachments
  pub delegated :
      validate_delegation prim k input between ≡ ok (attachment_verified delegation, db')

satisfied :
    (r : Result ThresholdError Bool)
    → elim r as (λ _. Result Thrown Bool) [ ok b ↦ ok b | err e ↦ err (bad_threshold e) ] ≡ ok true
    → r ≡ ok true
satisfied (ok b) h = cc h
satisfied (err e) h = absurd (cc h)

satisfies-cases :
    (o : Option Tholder) (indices : List ℕ)
    → satisfies o indices ≡ ok true
    → (t : Tholder) × (o ≡ some t) × (satisfy t indices ≡ ok true)
unfolding satisfies
satisfies-cases none indices h = absurd (cc h)
satisfies-cases (some t) indices h = (t, refl, satisfied (satisfy t indices) h)

module _ (prim : Primitives) (k : Kever) (input : AttachmentValidationInput) where
  rotates :
      (input.serder.ilk ≡ some "rot") ⊎ (input.serder.ilk ≡ some "drt")
      → is_rotation input.serder ≡ true
  unfolding is_rotation
  rotates (inl e) = rw e refl
  rotates (inr e) = rw e refl

  prior_next-exposes :
      (sigers : List Siger) (next : Tholder)
      → satisfies_prior_next prim k input sigers ≡ ok true
      → k.ntholder ≡ some next
      → input.is_establishment ≡ true
      → (input.serder.ilk ≡ some "rot") ⊎ (input.serder.ilk ≡ some "drt")
      → (shown : List ℕ) × (satisfy next shown ≡ ok true)
        × All (IsExposed prim k.ndigers sigers) shown
  unfolding satisfies_prior_next satisfies
  prior_next-exposes sigers next h has_next establishes rotation =
      let checked : satisfies k.ntholder (exposeds prim k.ndigers sigers) ≡ ok true =
        ground (arith, h, has_next, establishes, rotates rotation) in
      let (t, same, enough) = satisfies-cases k.ntholder (exposeds prim k.ndigers sigers) checked in
      (
        exposeds prim k.ndigers sigers,
        ap (λ (x : Tholder). satisfy x (exposeds prim k.ndigers sigers)) (cc (same, has_next))
            ∙ enough,
        exposeds-IsExposed prim k.ndigers sigers,
      )

  delegated_ilk :
      is_delegated_establishment input.serder ≡ true
      → (input.serder.ilk ≡ some "dip") ⊎ (input.serder.ilk ≡ some "drt")
  unfolding is_delegated_establishment
  delegated_ilk h = elim (Bool-cases (equals input.serder.ilk "dip")) [
    | inl dip ↦ inl (equals-some input.serder.ilk "dip" dip)
    | inr other ↦ inr (equals-some input.serder.ilk "drt" (ground (arith, other, h)))
  ]

  no_misfit-outsider :
      (db : Baser)
      → is_misfit k input db ≡ false
      → input.local ≡ false
      → (locally_owned db k.pre ≡ false)
        × (locally_witnessed db input.wits ≡ false)
        × (locally_delegated db input.delpre ≡ true
            → (input.serder.ilk ≡ some "dip") ⊎ (input.serder.ilk ≡ some "drt"))
  unfolding is_misfit
  no_misfit-outsider db h remote = (
    ground (arith, h, remote),
    ground (arith, h, remote),
    λ delegator. delegated_ilk (ground (arith, h, remote, delegator)),
  )

  is_misfit-cached :
      (db db' : Baser) → IsCached db db' → is_misfit k input db' ≡ is_misfit k input db
  unfolding is_misfit locally_owned locally_delegated has_hab
  is_misfit-cached db db' c =
      ap (is_misfit k input) c.same
      ∙ ap
          (λ b.
            not input.local
            && (locally_owned db k.pre
                || b
                || (locally_delegated db input.delpre
                    && not (
                        is_delegated_establishment input.serder
                        && locally_delegated db input.delpre
                        && not (locally_owned db k.pre)))))
          (locally_witnessed-cached db c.cache input.wits)

  strip-IsCounted :
      (db : Baser) (r : Stripped × Baser)
      → strip_membered prim k input db ≡ ok r
      → IsCounted prim k input r.0.0 db
  unfolding strip_membered strip
  strip-IsCounted db r h = record {
    all_count = λ case. elim case [
      | inl local ↦
          let done : ◌≡◌ {A = Step Stripped} (ok ((input.sigers, []), db)) (ok r) =
            ground (arith, local, h) in
          cc done
      | inr apart ↦
          let done : ◌≡◌ {A = Step Stripped} (ok ((input.sigers, []), db)) (ok r) =
            ground (arith, apart, h) in
          cc done
    ];
    remote = λ remote member.
        let counted : (locally_contributed_indices prim db input.verfers >>= λ found.
        ok (strip input.serder found.0 input.sigers, found.1))
            ≡ ok r =
          ground (arith, remote, member, h) in
        >>=-cases (locally_contributed_indices prim db input.verfers) _ counted
          λ found ef done. (found.0, found.1, ef, cc done);
  }

  gate-none :
      (db : Baser) (n : ℕ)
      → witness_gate k input db n ≡ enough_receipts
      → length input.wits ≡ 0
      → input.toader ≡ 0
  unfolding witness_gate
  gate-none db n h none_ = ground (arith, h, none_)

  material-fits :
      (t : Tholder)
      → input.tholder ≡ some t
      → has_valid_threshold_material input.tholder (length input.verfers) ≡ true
      → t.size ≤ length input.verfers
  unfolding has_valid_threshold_material
  material-fits t there h = ground (arith, there, h)

-- Where `validateAttachments` verifies an event, a controller threshold is given, no larger than the
-- key list. The returned signatures are those that `verifyIndexedSignatures` verifies among the
-- signatures that count, at least one, and their indices satisfy that threshold; all given signatures
-- count, but for a nonlocal event of a local group member's identifier not those at the indices of
-- local keys. A rotation (`rot`, `drt`) of a state with a prior-next threshold satisfies that too, by
-- positions of the prior-next digests, each committing to the key of a returned signature that names
-- the position. A nonlocal event is not of a locally owned identifier and has no local witness, and
-- where its delegator is local it is a delegated establishment (`dip`, `drt`). The returned receipts
-- are those that verify against the witnesses; without witnesses the witness threshold is zero, and
-- with witnesses, for a validator that is no local controller, member or witness, it is from one to the
-- number of witnesses and at most the number of returned receipts. And `validateDelegation` verifies
-- the event, from tables that differ from the given ones at most in the cache of live states.
pub validate-IsValidated :
    (prim : Primitives) (k : Kever) (input : AttachmentValidationInput) (db db' : Baser)
    (v : VerifiedAttachments)
    → validate_attachments prim k input db ≡ ok (attachment_verified v, db')
    → IsValidated prim k input v db db'
validate-IsValidated prim k input db db' v h =
    let a : IsAuthorized prim k input v db db' = validate-IsAuthorized prim k input db db' v h in
    let signed : SignerVerificationResult =
      verify_indexed_signatures prim input.serder.raw a.counted.0 input.verfers in
    let cached : IsCached db a.between =
      strip-IsCached prim k input db (a.counted, a.between) a.stripped in
    let (t, has_t, enough) = satisfies-cases input.tholder signed.indices a.signed.controllers in
    let same : v.sigers ≡ signed.sigers = a.witnessed.same_sigers in
    record {
      tholder = t;
      has_tholder = has_t;
      fits = material-fits prim k input t has_t a.valid;
      counted = a.counted.0;
      is_counted = strip-IsCounted prim k input db (a.counted, a.between) a.stripped;
      signed = signed;
      verified = verify_indexed-IsVerification prim input.serder.raw a.counted.0 input.verfers;
      same_sigers = same;
      some_signer = ground (arith, a.signed.some_signer, ap length same);
      controllers = enough;
      prior_next = λ next has_next establishes rotation.
          prior_next-exposes prim k input v.sigers next
            (ap (satisfies_prior_next prim k input) same ∙ a.signed.prior_next) has_next establishes
            rotation;
      outsider =
          no_misfit-outsider prim k input db
            (sym (is_misfit-cached prim k input db a.between cached) ∙ a.signed.no_misfit);
      receipted = verify_indexed_signatures prim input.serder.raw input.wigers input.wits;
      witnessed = verify_indexed-IsVerification prim input.serder.raw input.wigers input.wits;
      same_wigers = a.witnessed.same_wigers;
      no_witness =
          gate-none prim k input a.between (length (receipts prim k input)) a.witnessed.gate;
      enough = λ some_wits outside. unprotected-receipts prim k input db db' v some_wits outside h;
      between = a.between;
      cached = cached;
      delegation = a.witnessed.delegation;
      delegated = a.witnessed.delegated;
    }
