-- ===== src/Prelude/Pigeonhole.antt =====
-- A list with no duplicate is no longer than a list that holds all its items; and the triples over
-- three lists.
use mathlib.Core.Path.{◌≡◌, refl, ap, sym, ◌∙◌}
use mathlib.Core.Logic.{inl, inr}
use Prim.Native.Nat.{◌+◌, ◌*◌, ◌≤◌}
use mathlib.Core.Bool.{true, false, not}
use mathlib.Core.List.{List, [], ◌∷◌, ◌++◌, map}
use native.Mathlib.Omega.{arith}
use keri_ts.Prelude.Tests.{Bool-cases}
use keri_ts.Prelude.Lists.{length, length-append, keep}
use keri_ts.Prelude.Sets.{Eq, has, has-append, has-keep, IsUnique}

pub length-map {ℓ κ} :
    {A : Type ℓ} {B : Type κ} (f : A → B) (xs : List A) → length (map f xs) ≡ length xs
length-map f [] = refl
length-map f (x ∷ xs) = omega (arith, length-map f xs)

module _ {ℓ} {A : Type ℓ} ⦃e : Eq A⦄ where
  others : A → List A → List A
  others a = keep (λ x. not (e.beq x a))

  length-others-le : (a : A) (xs : List A) → length (others a xs) ≤ length xs
  unfolding others
  length-others-le a [] = omega arith
  length-others-le a (x ∷ xs) = ground (arith, length-others-le a xs)

  length-others : (a : A) (xs : List A) → has a xs ≡ true → length (others a xs) + 1 ≤ length xs
  unfolding others has
  length-others a [] h = cc
  length-others a (x ∷ xs) h = elim (Bool-cases (e.beq x a)) [
    | inl same ↦ ground (arith, same, length-others-le a xs)
    | inr differs ↦ ground (arith, differs, h, e.beq_iff a x, e.beq_iff x a, length-others a xs)
  ]

  has-others :
      (a b : A) (xs : List A) → e.beq b a ≡ false → has b xs ≡ true → has b (others a xs) ≡ true
  unfolding others
  has-others a b xs differs h = ground (arith, differs, h, has-keep (λ x. not (e.beq x a)) b xs)

  differs_from : (a b : A) (xs : List A) → has a xs ≡ false → has b xs ≡ true → e.beq b a ≡ false
  differs_from a b xs absent there =
      ground (arith, absent, there, e.beq_iff b a, ap (λ x. has x xs))

  -- The pigeonhole principle.
  pub length-le-subset :
      (xs ys : List A)
      → IsUnique xs
      → ((a : A) → has a xs ≡ true → has a ys ≡ true)
      → length xs ≤ length ys
  unfolding has
  length-le-subset [] ys u sub = omega arith
  length-le-subset (x ∷ xs) ys u sub = omega (
    arith,
    length-others x ys (sub x (ground (arith, (e.beq_iff x x).1 refl))),
    length-le-subset xs (others x ys) u.1
        (λ a m. has-others x a ys (differs_from x a xs u.0 m) (sub a (ground (arith, m)))),
  )

module _ {ℓ} {A : Type ℓ} where
  -- All triples of an item of each list.
  with_first : A → List A → List A → List (A × A × A)
  with_first a [] zs = []
  with_first a (y ∷ ys) zs = map (λ z. (a, y, z)) zs ++ with_first a ys zs

  unfoldable pub triples : List A → List A → List A → List (A × A × A)
  unfolding with_first
  triples [] ys zs = []
  triples (x ∷ xs) ys zs = with_first x ys zs ++ triples xs ys zs

  length-with_first : (a : A) (ys zs : List A) → length (with_first a ys zs) ≡ length ys * length zs
  unfolding with_first
  length-with_first a [] zs = omega arith
  length-with_first a (y ∷ ys) zs =
      length-append (map (λ z. (a, y, z)) zs) (with_first a ys zs)
      ∙ omega (arith, length-map {B = A × A × A} (λ z. (a, y, z)) zs, length-with_first a ys zs)

  pub length-triples :
      (xs ys zs : List A) → length (triples xs ys zs) ≡ length xs * (length ys * length zs)
  unfolding triples
  length-triples [] ys zs = omega arith
  length-triples (x ∷ xs) ys zs =
      length-append (with_first x ys zs) (triples xs ys zs)
      ∙ omega (arith, length-with_first x ys zs, length-triples xs ys zs)

module _ {ℓ} {A : Type ℓ} ⦃e : Eq A⦄ ⦃t : Eq (A × A × A)⦄ where
  has-map_third :
      (a b c : A) (zs : List A)
      → has c zs ≡ true
      → has {A = A × A × A} (a, b, c) (map (λ z. (a, b, z)) zs) ≡ true
  unfolding has
  has-map_third a b c [] h = cc
  has-map_third a b c (z ∷ zs) h = elim (Bool-cases (e.beq c z)) [
    | inl same ↦
        let equal : c ≡ z = (e.beq_iff c z).0 same in
        let here : t.beq (a, b, c) (a, b, z) ≡ true =
          (t.beq_iff (a, b, c) (a, b, z)).1 (ap (λ (x : A). (a, b, x)) equal) in
        ground (arith, here)
    | inr differs ↦ ground (arith, has-map_third a b c zs (ground (arith, differs, h)))
  ]

  has-with_first :
      (a b c : A) (ys zs : List A)
      → has b ys ≡ true
      → has c zs ≡ true
      → has {A = A × A × A} (a, b, c) (with_first a ys zs) ≡ true
  unfolding has with_first
  has-with_first a b c [] zs hb hc = cc
  has-with_first a b c (y ∷ ys) zs hb hc =
      has-append {A = A × A × A} (a, b, c) (map (λ z. (a, y, z)) zs) (with_first a ys zs)
      ∙ elim (Bool-cases (e.beq b y)) [
        | inl same ↦
            let there : has {A = A × A × A} (a, b, c) (map (λ z. (a, y, z)) zs) ≡ true =
              ap (λ (x : A). has {A = A × A × A} (a, b, c) (map (λ z. (a, x, z)) zs))
                (sym ((e.beq_iff b y).0 same))
              ∙ has-map_third a b c zs hc in
            ground (arith, there)
        | inr differs ↦ ground (arith, has-with_first a b c ys zs (ground (arith, differs, hb)) hc)
      ]

  pub has-triples :
      (a b c : A) (xs ys zs : List A)
      → has a xs ≡ true
      → has b ys ≡ true
      → has c zs ≡ true
      → has {A = A × A × A} (a, b, c) (triples xs ys zs) ≡ true
  unfolding has triples
  has-triples a b c [] ys zs ha hb hc = cc
  has-triples a b c (x ∷ xs) ys zs ha hb hc =
      has-append {A = A × A × A} (a, b, c) (with_first x ys zs) (triples xs ys zs)
      ∙ elim (Bool-cases (e.beq a x)) [
        | inl same ↦
            let there : has {A = A × A × A} (a, b, c) (with_first x ys zs) ≡ true =
              ap (λ (w : A). has {A = A × A × A} (a, b, c) (with_first w ys zs))
                (sym ((e.beq_iff a x).0 same))
              ∙ has-with_first a b c ys zs hb hc in
            ground (arith, there)
        | inr differs ↦
            ground (arith, has-triples a b c xs ys zs (ground (arith, differs, ha)) hb hc)
      ]
