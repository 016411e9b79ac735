-- ===== src/Kever/Signatures/Exposed.antt =====
-- What a verified signature exposes of the keys that were committed to: `exposeds`.
use mathlib.Core.Path.{subst}
use keri_ts.Prelude.{
  ℕ, ◌≡◌, ◌⊎◌, sym, ◌∙◌, ap, true, false, Option, some, List, [], ◌∷◌, String, get_elem?, All,
  Bool-cases, Option-cases, inl, inr, arith,
}
use keri_ts.Event.{Siger}
use keri_ts.Kever.{Primitives}
use keri_ts.Kever.Signatures.{exposed, exposeds}

-- The signature's key is the one that the prior-next digest at the position commits to.
pub record IsExposedBy (prim : Primitives) (ndigers : List String) (i : ℕ) (siger : Siger)
    : Type 0 where
  pub diger : String
  pub key : String
  pub at_ondex : siger.ondex ≡ some i
  pub committed : get_elem? ndigers i ≡ some diger
  pub signed_by : siger.verfer ≡ some key
  pub matches : prim.digest_matches key diger ≡ true

-- One of the signatures exposes it.
abbrev pub IsExposed : Primitives → List String → List Siger → ℕ → Type 0
IsExposed prim ndigers [] i = true ≡ false
IsExposed prim ndigers (siger ∷ sigers) i =
    IsExposedBy prim ndigers i siger ⊎ IsExposed prim ndigers sigers i

exposed-by :
    (prim : Primitives) (ndigers : List String) (siger : Siger) (i : ℕ)
    → exposed prim ndigers siger ≡ some i
    → IsExposedBy prim ndigers i siger
unfolding exposed
exposed-by prim ndigers siger i h = elim (Option-cases siger.ondex) [
  | inl no_ondex ↦ absurd (ground (arith, no_ondex, h))
  | inr (ondex, has_ondex) ↦ elim (Option-cases (get_elem? ndigers ondex)) [
    | inl no_diger ↦ absurd (ground (arith, has_ondex, no_diger, h))
    | inr (diger, has_diger) ↦ elim (Option-cases siger.verfer) [
      | inl no_key ↦ absurd (ground (arith, has_ondex, has_diger, no_key, h))
      | inr (key, has_key) ↦ elim (Bool-cases (prim.digest_matches key diger)) [
        | inr differs ↦ absurd (ground (arith, has_ondex, has_diger, has_key, differs, h))
        | inl matches ↦
            let done : ◌≡◌ {A = Option ℕ} (some ondex) (some i) =
              ground (arith, has_ondex, has_diger, has_key, matches, h) in
            record {
              diger = diger;
              key = key;
              at_ondex = has_ondex ∙ done;
              committed = ap (get_elem? ndigers) (sym (cc done)) ∙ has_diger;
              signed_by = has_key;
              matches = matches;
            }
      ]
    ]
  ]
]

All-later :
    (prim : Primitives) (ndigers : List String) (siger : Siger) (sigers : List Siger)
    (shown : List ℕ)
    → All (IsExposed prim ndigers sigers) shown
    → All (IsExposed prim ndigers (siger ∷ sigers)) shown
All-later prim ndigers siger sigers [] h = tt
All-later prim ndigers siger sigers (i ∷ shown) h =
    (inr h.0, All-later prim ndigers siger sigers shown h.1)

pub exposeds-IsExposed :
    (prim : Primitives) (ndigers : List String) (sigers : List Siger)
    → All (IsExposed prim ndigers sigers) (exposeds prim ndigers sigers)
unfolding exposeds
exposeds-IsExposed prim ndigers [] = tt
exposeds-IsExposed prim ndigers (siger ∷ sigers) =
    let later =
      All-later prim ndigers siger sigers (exposeds prim ndigers sigers)
        (exposeds-IsExposed prim ndigers sigers) in
    elim (Option-cases (exposed prim ndigers siger)) [
      | inl absent ↦
          let same : exposeds prim ndigers sigers ≡ exposeds prim ndigers (siger ∷ sigers) =
            ground (arith, absent) in
          subst (All (IsExposed prim ndigers (siger ∷ sigers))) same later
      | inr (i, there) ↦
          let same : i ∷ exposeds prim ndigers sigers ≡ exposeds prim ndigers (siger ∷ sigers) =
            ground (arith, there) in
          subst (All (IsExposed prim ndigers (siger ∷ sigers))) same
            (inl (exposed-by prim ndigers siger i there), later)
    ]
