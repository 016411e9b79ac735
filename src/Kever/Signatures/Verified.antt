-- ===== src/Kever/Signatures/Verified.antt =====
-- What `verifyIndexedSignatures` returns.
use mathlib.Core.Path.{subst}
use keri_ts.Prelude.{
  ℕ, ◌<◌, ◌≡◌, ◌⊎◌, refl, ap, sym, ◌∙◌, Bool, true, false, ◌&&◌, ◌||◌, none, some, List, [], ◌∷◌,
  ◌++◌, map, String, ◌==◌, ==_iff, leb, get_elem?, All, Bool-cases, Option-cases, arith, inl, inr,
}
use keri_ts.Prelude.Sets.{nat_eq, has, has-append, IsUnique}
use keri_ts.Prelude.Sort.{insert_by, sort_by, All-insert_by, All-sort_by}
use keri_ts.Event.{Bytes, Siger, siger_eq}
use keri_ts.Kever.{Primitives}
use keri_ts.Kever.Signatures.{
  SignerVerificationResult, VerifiedMap, index_of, siger_of, verify_siger, verify_loop,
  verify_indexed_signatures,
}

map-append {ℓ κ} :
    {A : Type ℓ} {B : Type κ} (f : A → B) (xs ys : List A) → map f (xs ++ ys) ≡ map f xs ++ map f ys
map-append f [] ys = refl
map-append f (x ∷ xs) ys = ap (λ zs. f x ∷ zs) (map-append f xs ys)

All-append {ℓ κ} :
    {A : Type ℓ} (P : A → Type κ) (xs ys : List A) → All P xs → All P ys → All P (xs ++ ys)
All-append P [] ys h k = k
All-append P (x ∷ xs) ys h k = (h.0, All-append P xs ys h.1 k)

-- The indices rise strictly.
abbrev pub IsRising : VerifiedMap → Type 0
IsRising [] = Unit
IsRising (e ∷ es) = All (λ f. e.0 < f.0) es × IsRising es

has_index-insert :
    (i : ℕ) (e : ℕ × Siger) (es : VerifiedMap)
    → has i (map index_of (insert_by index_of e es)) ≡ (i == e.0 || has i (map index_of es))
unfolding insert_by has
has_index-insert i e [] = refl
has_index-insert i e (f ∷ es) = ground (arith, has_index-insert i e es)

has_index-sort :
    (i : ℕ) (es : VerifiedMap)
    → has i (map index_of (sort_by index_of es)) ≡ has i (map index_of es)
unfolding sort_by has
has_index-sort i [] = refl
has_index-sort i (e ∷ es) =
    ground (arith, has_index-insert i e (sort_by index_of es), has_index-sort i es)

All-above :
    (a b : ℕ) (es : VerifiedMap)
    → a < b
    → All (λ (f : ℕ × Siger). b < f.0) es
    → All (λ (f : ℕ × Siger). a < f.0) es
All-above a b [] h k = tt
All-above a b (f ∷ es) h k = (omega (arith, h, k.0), All-above a b es h k.1)

insert-IsRising :
    (e : ℕ × Siger) (es : VerifiedMap)
    → has e.0 (map index_of es) ≡ false
    → IsRising es
    → IsRising (insert_by index_of e es)
unfolding insert_by has
insert-IsRising e [] new rise = (tt, tt)
insert-IsRising e (f ∷ es) new rise = elim (Bool-cases (leb e.0 f.0)) [
  | inl first ↦
      let less : e.0 < f.0 = ground (arith, first, new) in
      rw first ((less, All-above e.0 f.0 es less rise.0), rise)
  | inr later ↦
      let more : f.0 < e.0 = ground (arith, later) in
      rw later (
        All-insert_by index_of (λ (g : ℕ × Siger). f.0 < g.0) e es more rise.0,
        insert-IsRising e es (ground (arith, new)) rise.1,
      )
]

sort-IsRising : (es : VerifiedMap) → IsUnique (map index_of es) → IsRising (sort_by index_of es)
unfolding sort_by
sort-IsRising [] u = tt
sort-IsRising (e ∷ es) u =
    insert-IsRising e (sort_by index_of es) (has_index-sort e.0 es ∙ u.0) (sort-IsRising es u.1)

snoc-IsUnique : (i : ℕ) (xs : List ℕ) → has i xs ≡ false → IsUnique xs → IsUnique (xs ++ i ∷ [])
unfolding has
snoc-IsUnique i [] new u = (refl, tt)
snoc-IsUnique i (x ∷ xs) new u = (
  ground (arith, has-append x xs (i ∷ []), new, u.0),
  snoc-IsUnique i xs (ground (arith, new)) u.1,
)

module _ (prim : Primitives) (raw : Bytes) (verfers : List String) where
  -- The signature stands under its index, names the key at that index, and verifies against it.
  pub record IsChecked (e : ℕ × Siger) : Type 0 where
    pub same_index : (e.1).index ≡ e.0
    pub verfer : String
    pub at_index : get_elem? verfers e.0 ≡ some verfer
    pub named : (e.1).verfer ≡ some verfer
    pub verifies : prim.verify verfer (e.1).raw raw ≡ true

  -- A signature verifies against the key at its index.
  unfoldable pub verifies_at : Siger → Bool
  verifies_at siger = elim (get_elem? verfers siger.index) [
    | none ↦ false
    | some verfer ↦ prim.verify verfer siger.raw raw
  ]

  -- One of the signatures stands at the index and verifies there.
  unfoldable pub signs : ℕ → List Siger → Bool
  unfolding verifies_at
  signs i [] = false
  signs i (siger ∷ sigers) = (i == siger.index && verifies_at siger) || signs i sigers

  -- The signature is one of the given ones, but for the key that it names.
  abbrev pub IsGiven : List Siger → ℕ × Siger → Type 0
  IsGiven sigers e =
      (given : Siger) × (has given sigers ≡ true) × (e.1 ≡ record given { verfer = (e.1).verfer })

  abbrev IsMap : VerifiedMap → Type 0
  IsMap m = All IsChecked m × IsUnique (map index_of m)

  abbrev entry_of : Siger → String → ℕ × Siger
  entry_of siger verfer = (siger.index, record siger { verfer = some verfer })

  -- A signature that is entered is new under its index, which is in range, and verifies there.
  record IsEntered (m : VerifiedMap) (siger : Siger) : Type 0 where
    verfer : String
    there : get_elem? verfers siger.index ≡ some verfer
    new : has siger.index (map index_of m) ≡ false
    good : prim.verify verfer siger.raw raw ≡ true
    grown : verify_siger prim raw verfers m siger ≡ m ++ entry_of siger verfer ∷ []

  siger-cases :
      (m : VerifiedMap) (siger : Siger)
      → (verify_siger prim raw verfers m siger ≡ m) ⊎ IsEntered m siger
  unfolding verify_siger
  siger-cases m siger = elim (Option-cases (get_elem? verfers siger.index)) [
    | inl out ↦ inl (ground (arith, out))
    | inr (verfer, there) ↦ elim (Bool-cases (has siger.index (map index_of m))) [
      | inl old ↦ inl (ground (arith, there, old))
      | inr new ↦ elim (Bool-cases (prim.verify verfer siger.raw raw)) [
        | inr bad ↦ inl (ground (arith, there, new, bad))
        | inl good ↦ inr (record {
          verfer = verfer;
          there = there;
          new = new;
          good = good;
          grown = ground (arith, there, new, good);
        })
      ]
    ]
  ]

  siger-IsMap :
      (m : VerifiedMap) (siger : Siger) → IsMap m → IsMap (verify_siger prim raw verfers m siger)
  siger-IsMap m siger h = elim (siger-cases m siger) [
    | inl same ↦ subst IsMap (sym same) h
    | inr e ↦
        let entry : ℕ × Siger = entry_of siger e.verfer in
        let checked : IsChecked entry = record {
          same_index = refl;
          verfer = e.verfer;
          at_index = e.there;
          named = refl;
          verifies = e.good;
        } in
        subst IsMap (sym e.grown) (
          All-append IsChecked m (entry ∷ []) h.0 (checked, tt),
          subst IsUnique (sym (map-append index_of m (entry ∷ [])))
              (snoc-IsUnique siger.index (map index_of m) e.new h.1),
        )
  ]

  loop-IsMap :
      (m : VerifiedMap) (sigers : List Siger)
      → IsMap m
      → IsMap (verify_loop prim raw verfers m sigers)
  unfolding verify_loop
  loop-IsMap m [] h = h
  loop-IsMap m (siger ∷ sigers) h =
      loop-IsMap (verify_siger prim raw verfers m siger) sigers (siger-IsMap m siger h)

  siger-IsGiven :
      (all : List Siger) (m : VerifiedMap) (siger : Siger)
      → has siger all ≡ true
      → All (IsGiven all) m
      → All (IsGiven all) (verify_siger prim raw verfers m siger)
  siger-IsGiven all m siger there h = elim (siger-cases m siger) [
    | inl same ↦ subst (All (IsGiven all)) (sym same) h
    | inr e ↦
        subst (All (IsGiven all)) (sym e.grown)
          (All-append (IsGiven all) m (entry_of siger e.verfer ∷ []) h ((siger, there, refl), tt))
  ]

  loop-IsGiven :
      (all : List Siger) (m : VerifiedMap) (sigers : List Siger)
      → ((siger : Siger) → has siger sigers ≡ true → has siger all ≡ true)
      → All (IsGiven all) m
      → All (IsGiven all) (verify_loop prim raw verfers m sigers)
  unfolding verify_loop has
  loop-IsGiven all m [] part h = h
  loop-IsGiven all m (siger ∷ sigers) part h =
      loop-IsGiven all (verify_siger prim raw verfers m siger) sigers
        (λ s there. part s (ground (arith, there)))
        (siger-IsGiven all m siger
          (part siger (ground (arith, (siger_eq.beq_iff siger siger).1 refl))) h)

  has-siger :
      (i : ℕ) (m : VerifiedMap) (siger : Siger)
      → has i (map index_of (verify_siger prim raw verfers m siger))
        ≡ (has i (map index_of m) || (i == siger.index && verifies_at siger))
  unfolding verify_siger verifies_at has
  has-siger i m siger = elim (Option-cases (get_elem? verfers siger.index)) [
    | inl out ↦ ground (arith, out)
    | inr (verfer, there) ↦
        let entry : ℕ × Siger = (siger.index, record siger { verfer = some verfer }) in
        let grown : has i (map index_of (m ++ entry ∷ []))
            ≡ (has i (map index_of m) || i == siger.index) =
          ap (has i) (map-append index_of m (entry ∷ []))
          ∙ has-append i (map index_of m) (siger.index ∷ [])
          ∙ ground arith in
        let known : (i == siger.index) ≡ true
            → has i (map index_of m) ≡ has siger.index (map index_of m) =
          λ e. ap (λ j. has j (map index_of m)) ((==_iff i siger.index).0 e) in
        ground (arith, there, grown, known)
  ]

  has-loop :
      (i : ℕ) (m : VerifiedMap) (sigers : List Siger)
      → has i (map index_of (verify_loop prim raw verfers m sigers))
        ≡ (has i (map index_of m) || signs i sigers)
  unfolding verify_loop signs
  has-loop i m [] = ground arith
  has-loop i m (siger ∷ sigers) =
      ground (arith, has-loop i (verify_siger prim raw verfers m siger) sigers, has-siger i m siger)

  -- The signatures in order of their indices.
  pub record IsVerification (sigers : List Siger) (r : SignerVerificationResult) : Type 0 where
    pub ordered : VerifiedMap
    pub same_sigers : r.sigers ≡ map siger_of ordered
    pub same_indices : r.indices ≡ map index_of ordered
    pub rising : IsRising ordered
    pub checked : All IsChecked ordered
    pub given : All (IsGiven sigers) ordered
    pub complete : (i : ℕ) → has i r.indices ≡ signs i sigers

-- The result of `verifyIndexedSignatures` is a list of signatures with strictly rising indices, each
-- in range of the keys, naming the key at its index and verified against it, and each one of the given
-- signatures in its code, bytes, index and prior-next index; and its indices are exactly those at
-- which one of the given signatures verifies.
pub verify_indexed-IsVerification :
    (prim : Primitives) (raw : Bytes) (sigers : List Siger) (verfers : List String)
    → IsVerification prim raw verfers sigers (verify_indexed_signatures prim raw sigers verfers)
unfolding verify_indexed_signatures has
verify_indexed-IsVerification prim raw sigers verfers =
    let m = verify_loop prim raw verfers [] sigers in
    let (checked, unique) = loop-IsMap prim raw verfers [] sigers (tt, tt) in
    record {
      ordered = sort_by index_of m;
      same_sigers = refl;
      same_indices = refl;
      rising = sort-IsRising m unique;
      checked = All-sort_by index_of (IsChecked prim raw verfers) m checked;
      given =
          All-sort_by index_of (IsGiven prim raw verfers sigers) m
            (loop-IsGiven prim raw verfers sigers [] sigers (λ s there. there) tt);
      complete = λ i. has_index-sort i m ∙ has-loop prim raw verfers i [] sigers;
    }
