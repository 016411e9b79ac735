-- ===== src/Kever/Signatures.antt =====
-- packages/keri/src/core/kever.ts: `verifyIndexedSignatures`, `exposeds` and
-- `locallyContributedIndices`. The proofs are in the child module.
pub mod Exposed
pub mod Verified
use keri_ts.Prelude.{
  ℕ, ◌+◌, Bool, not, Option, none, some, List, [], ◌∷◌, ◌++◌, map, String, if◌then◌else◌, get_elem?,
}
use keri_ts.Prelude.Sets.{nat_eq, string_eq, has, add}
use keri_ts.Prelude.Sort.{sort_by}
use keri_ts.Prelude.Result.{ok, ◌>>=◌}
use keri_ts.Event.{Bytes, Siger}
use keri_ts.Kever.{Primitives, Kever, Baser}
use keri_ts.Kever.Store.{Step, get_kever}

-- `SignerVerificationResult`
pub record SignerVerificationResult : Type 0 where
  pub sigers : List Siger
  pub indices : List ℕ

-- The map from index to verified signature, in insertion order.
abbrev pub VerifiedMap : Type 0
VerifiedMap = List (ℕ × Siger)

abbrev pub index_of : ℕ × Siger → ℕ
index_of e = e.0

abbrev pub siger_of : ℕ × Siger → Siger
siger_of e = e.1

-- One turn of the loop.
unfoldable pub verify_siger : Primitives → Bytes → List String → VerifiedMap → Siger → VerifiedMap
verify_siger prim raw verfers verified siger = elim (get_elem? verfers siger.index) [
  | none ↦ verified
  | some verfer ↦
      if has siger.index (map index_of verified)
      then verified
      else if not (prim.verify verfer siger.raw raw)
      then verified
      else verified ++ (siger.index, record siger { verfer = some verfer }) ∷ []
]

unfoldable pub verify_loop :
    Primitives → Bytes → List String → VerifiedMap → List Siger → VerifiedMap
unfolding verify_siger
verify_loop prim raw verfers verified [] = verified
verify_loop prim raw verfers verified (siger ∷ sigers) =
    verify_loop prim raw verfers (verify_siger prim raw verfers verified siger) sigers

unfoldable pub verify_indexed_signatures :
    Primitives → Bytes → List Siger → List String → SignerVerificationResult
unfolding verify_loop
verify_indexed_signatures prim raw sigers verfers =
    let ordered = sort_by index_of (verify_loop prim raw verfers [] sigers) in
    record { sigers = map siger_of ordered; indices = map index_of ordered }

-- The prior-next digest that a signature exposes.
unfoldable pub exposed : Primitives → List String → Siger → Option ℕ
exposed prim ndigers siger = elim siger.ondex [
  | none ↦ none
  | some ondex ↦ elim (get_elem? ndigers ondex) [
    | none ↦ none
    | some diger ↦ elim siger.verfer [
      | none ↦ none
      | some verfer ↦ if prim.digest_matches verfer diger then some ondex else none
    ]
  ]
]

unfoldable pub exposeds : Primitives → List String → List Siger → List ℕ
unfolding exposed
exposeds prim ndigers [] = []
exposeds prim ndigers (siger ∷ sigers) =
    let rest = exposeds prim ndigers sigers in
    elim (exposed prim ndigers siger) [ none ↦ rest | some ondex ↦ ondex ∷ rest ]

-- `for (const verfer of kever.verfers) localKeys.add(verfer.qb64)`
unfoldable pub add_keys : List String → List String → List String
add_keys keys [] = keys
add_keys keys (verfer ∷ verfers) = add_keys (add verfer keys) verfers

-- The keys of the local identifiers.
unfoldable pub local_keys : Primitives → Baser → List String → List String → Step (List String)
unfolding get_kever add_keys
local_keys prim db keys [] = ok (keys, db)
local_keys prim db keys (pre ∷ prefixes) = get_kever prim db pre >>= λ found. elim found.0 [
  | none ↦ local_keys prim found.1 keys prefixes
  | some kever ↦ local_keys prim found.1 (add_keys keys kever.verfers) prefixes
]

-- The positions, from `index` on, of the keys that are local.
unfoldable pub local_positions : List String → ℕ → List String → List ℕ
local_positions keys index [] = []
local_positions keys index (verfer ∷ verfers) =
    let rest = local_positions keys (index + 1) verfers in
    if has verfer keys then index ∷ rest else rest

unfoldable pub locally_contributed_indices : Primitives → Baser → List String → Step (List ℕ)
unfolding local_keys local_positions
locally_contributed_indices prim db verfers =
    local_keys prim db [] db.prefixes >>= λ keys. ok (local_positions keys.0 0 verfers, keys.1)
