-- ===== src/Prelude/Sort.antt =====
-- `Array.sort` by a numeric key: it is stable, so an insertion sort from the right is the same
-- function.
use Prim.Native.Nat.{ℕ, ◌≤◌}
use mathlib.Core.Path.{◌≡◌, refl}
use mathlib.Core.Logic.{inl, inr}
use mathlib.Core.Bool.{Bool, ◌||◌}
use mathlib.Core.List.{List, [], ◌∷◌}
use native.Mathlib.Omega.{arith}
use keri_ts.Prelude.Tests.{leb, if◌then◌else◌, Bool-cases}
use keri_ts.Prelude.Lists.{All}
use keri_ts.Prelude.Sets.{Eq, nat_eq, has}

module _ {ℓ} {A : Type ℓ} (key : A → ℕ) where
  unfoldable pub insert_by : A → List A → List A
  insert_by x [] = x ∷ []
  insert_by x (y ∷ ys) =
      let rest = insert_by x ys in if leb (key x) (key y) then x ∷ y ∷ ys else y ∷ rest

  unfoldable pub sort_by : List A → List A
  unfolding insert_by
  sort_by [] = []
  sort_by (x ∷ xs) = insert_by x (sort_by xs)

  -- The keys rise weakly.
  abbrev pub IsSorted : List A → Type 0
  IsSorted [] = Unit
  IsSorted (x ∷ xs) = All (λ y. key x ≤ key y) xs × IsSorted xs

  pub All-insert_by {κ} :
      (P : A → Type κ) (x : A) (xs : List A) → P x → All P xs → All P (insert_by x xs)
  unfolding insert_by
  All-insert_by P x [] p h = (p, tt)
  All-insert_by P x (y ∷ ys) p h = elim (Bool-cases (leb (key x) (key y))) [
    | inl first ↦ rw first (p, h)
    | inr later ↦ rw later (h.0, All-insert_by P x ys p h.1)
  ]

  pub All-sort_by {κ} : (P : A → Type κ) (xs : List A) → All P xs → All P (sort_by xs)
  unfolding sort_by
  All-sort_by P [] h = tt
  All-sort_by P (x ∷ xs) h = All-insert_by P x (sort_by xs) h.0 (All-sort_by P xs h.1)

module _ {ℓ} {A : Type ℓ} ⦃e : Eq A⦄ (key : A → ℕ) where
  has-insert_by : (a x : A) (xs : List A) → has a (insert_by key x xs) ≡ (e.beq a x || has a xs)
  unfolding insert_by has
  has-insert_by a x [] = refl
  has-insert_by a x (y ∷ ys) = ground (arith, has-insert_by a x ys)

  pub has-sort_by : (a : A) (xs : List A) → has a (sort_by key xs) ≡ has a xs
  unfolding sort_by has
  has-sort_by a [] = refl
  has-sort_by a (x ∷ xs) = ground (arith, has-insert_by a x (sort_by key xs), has-sort_by a xs)

-- A stable sort by a test of what may stand before what.
module _ {ℓ} {A : Type ℓ} (before : A → A → Bool) where
  insert_with : A → List A → List A
  insert_with x [] = x ∷ []
  insert_with x (y ∷ ys) =
      let rest = insert_with x ys in if before x y then x ∷ y ∷ ys else y ∷ rest

  unfoldable pub sort_with : List A → List A
  unfolding insert_with
  sort_with [] = []
  sort_with (x ∷ xs) = insert_with x (sort_with xs)
