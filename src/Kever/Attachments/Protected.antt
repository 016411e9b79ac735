-- ===== src/Kever/Attachments/Protected.antt =====
-- What the gates of `validateAttachmentsInternal` keep out.
use mathlib.Core.Path.{subst}
use keri_ts.Prelude.{
  ℕ, [], ◌≤◌, ◌<◌, ◌≡◌, ◌∙◌, ap, false, not, ◌&&◌, ◌||◌, List, String, ◌==◌, length, Option-cases,
  ◌∷◌, Bool-cases, inl, inr, arith,
}
use keri_ts.Prelude.Sets.{string_eq}
use keri_ts.Prelude.Result.{Result, ok, ◌>>=◌, >>=-cases}
use keri_ts.Event.Decision.{VerifiedAttachments, attachment_verified}
use keri_ts.Kever.{Primitives, Kever, Baser}
use keri_ts.Kever.Store.{locally_owned, locally_membered, get_kever}
use keri_ts.Kever.Store.Cache.{
  IsCached, same-IsCached, IsCached-trans, get_kever-IsCached, locally_witnessed-cached,
}
use keri_ts.Kever.Signatures.{local_keys, add_keys, locally_contributed_indices}
use keri_ts.Kever.Inputs.{AttachmentValidationInput}
use keri_ts.Kever.Delegation.{is_protected}
use keri_ts.Kever.Attachments.{
  Stripped, strip, strip_membered, enough_receipts, witness_gate, validate_attachments,
}
use keri_ts.Kever.Attachments.Accepted.{IsAuthorized, validate-IsAuthorized, receipts}

gate-bounds :
    (k : Kever) (input : AttachmentValidationInput) (db : Baser) (n : ℕ)
    → (length input.wits == 0) ≡ false
    → is_protected k input.wits db ≡ false
    → witness_gate k input db n ≡ enough_receipts
    → (1 ≤ input.toader) × (input.toader ≤ length input.wits) × (input.toader ≤ n)
unfolding witness_gate
gate-bounds k input db n some_wits open_ h = (
  ground (arith, some_wits, open_, h),
  ground (arith, some_wits, open_, h),
  ground (arith, some_wits, open_, h),
)

local_keys-IsCached :
    (prim : Primitives) (db : Baser) (keys prefixes : List String) (r : List String × Baser)
    → local_keys prim db keys prefixes ≡ ok r
    → IsCached db r.1
unfolding local_keys
local_keys-IsCached prim db keys [] r h = same-IsCached keys db r h
local_keys-IsCached prim db keys (pre ∷ prefixes) r h =
    >>=-cases (get_kever prim db pre) _ h λ found ef h1. elim (Option-cases found.0) [
      | inl absent ↦
          IsCached-trans db found.1 r.1 (get_kever-IsCached prim db pre found ef)
            (local_keys-IsCached prim found.1 keys prefixes r (ground (arith, absent, h1)))
      | inr (kever, there) ↦
          IsCached-trans db found.1 r.1 (get_kever-IsCached prim db pre found ef) (
            local_keys-IsCached prim found.1 (add_keys keys kever.verfers) prefixes r
              (ground (arith, there, h1)))
    ]

contributed-IsCached :
    (prim : Primitives) (db : Baser) (verfers : List String) (r : List ℕ × Baser)
    → locally_contributed_indices prim db verfers ≡ ok r
    → IsCached db r.1
unfolding locally_contributed_indices
contributed-IsCached prim db verfers r h =
    >>=-cases (local_keys prim db [] db.prefixes) _ h λ keys ek done.
      let same : keys.1 ≡ r.1 = cc done in
      subst (IsCached db) same (local_keys-IsCached prim db [] db.prefixes keys ek)

pub strip-IsCached :
    (prim : Primitives) (k : Kever) (input : AttachmentValidationInput) (db : Baser)
    (r : Stripped × Baser)
    → strip_membered prim k input db ≡ ok r
    → IsCached db r.1
unfolding strip_membered
strip-IsCached prim k input db r h =
    elim (Bool-cases (not input.local && locally_membered db k.pre)) [
      | inr all_count ↦ same-IsCached (input.sigers, []) db r (ground (arith, all_count, h))
      | inl remote ↦ stripped (ground (arith, remote, h))
    ]
  where
    stripped :
        (locally_contributed_indices prim db input.verfers >>= λ found.
        ok (strip input.serder found.0 input.sigers, found.1))
          ≡ ok r
        → IsCached db r.1
    stripped e = >>=-cases (locally_contributed_indices prim db input.verfers) _ e λ found ef done.
        let same : found.1 ≡ r.1 = cc done in
        subst (IsCached db) same (contributed-IsCached prim db input.verfers found ef)

is_protected-cached :
    (k : Kever) (wits : List String) (db db' : Baser)
    → IsCached db db'
    → is_protected k wits db' ≡ is_protected k wits db
unfolding is_protected locally_owned locally_membered
is_protected-cached k wits db db' c =
    ap (is_protected k wits) c.same
    ∙ ap (λ b. locally_owned db k.pre || locally_membered db k.pre || b)
        (locally_witnessed-cached db c.cache wits)

pub unprotected-receipts :
    (prim : Primitives) (k : Kever) (input : AttachmentValidationInput) (db db' : Baser)
    (v : VerifiedAttachments)
    → 0 < length input.wits
    → is_protected k input.wits db ≡ false
    → validate_attachments prim k input db ≡ ok (attachment_verified v, db')
    → (1 ≤ input.toader) × (input.toader ≤ length input.wits) × (input.toader ≤ length v.wigers)
unprotected-receipts prim k input db db' v some_wits outside h =
    let a : IsAuthorized prim k input v db db' = validate-IsAuthorized prim k input db db' v h in
    let cached = strip-IsCached prim k input db (a.counted, a.between) a.stripped in
    let (low, high, enough) =
      gate-bounds k input a.between (length (receipts prim k input)) (ground (arith, some_wits))
        (is_protected-cached k input.wits db a.between cached ∙ outside) a.witnessed.gate in
    (low, high, omega (arith, enough, ap length a.witnessed.same_wigers))
