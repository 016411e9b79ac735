-- ===== src/Prelude/Sets.antt =====
-- JavaScript's `Set` and `Array.includes` over any type with a Boolean equality: a set is the list
-- of its members in insertion order.
use mathlib.Core.Logic.{◌↔◌, inl, inr}
use Prim.Native.Nat.{ℕ, ◌+◌, ◌≤◌}
use Prim.Native.String.{String}
use mathlib.Core.Path.{◌≡◌, refl, ap}
use mathlib.Core.Bool.{Bool, true, false, ◌&&◌, ◌||◌}
use mathlib.Core.List.{List, [], ◌∷◌, ◌++◌}
use native.Mathlib.Omega.{arith}
use text.Mathlib.Text.{◌==◌ as str_eq}
use text.Mathlib.TextEquality.{eq_iff}
use keri_ts.Prelude.Tests.{◌==◌, ==_iff, if◌then◌else◌, Bool-cases}
use keri_ts.Prelude.Lists.{length, length-append, keep, All}

-- A type whose values JavaScript's `===` compares.
pub record Eq {κ} (T : Type κ) : Type κ where
  pub beq : T → T → Bool
  pub beq_iff : (x y : T) → (beq x y ≡ true) ↔ (x ≡ y)

instance abbrev pub string_eq : Eq String
string_eq = record { beq = str_eq; beq_iff = eq_iff }

instance abbrev pub nat_eq : Eq ℕ
nat_eq = record { beq = ◌==◌; beq_iff = ==_iff }

module _ {ℓ} {A : Type ℓ} ⦃e : Eq A⦄ where
  -- `xs.includes(a)`, and `Set.has`
  unfoldable pub has : A → List A → Bool
  has a [] = false
  has a (x ∷ xs) = e.beq a x || has a xs

  -- `Set.add`
  unfoldable pub add : A → List A → List A
  unfolding has
  add a s = if has a s then s else s ++ a ∷ []

  unfoldable pub add_all : List A → List A → List A
  add_all s [] = s
  add_all s (x ∷ xs) = add_all (add x s) xs

  -- `new Set(xs)`
  unfoldable pub of_list : List A → List A
  unfolding add_all add
  of_list xs = add_all [] xs

  -- `new Set(values).size === values.length`
  unfoldable pub has_unique_entries : List A → Bool
  unfolding of_list
  has_unique_entries values = length (of_list values) == length values

  -- No item stands twice.
  abbrev pub IsUnique : List A → Type 0
  IsUnique [] = Unit
  IsUnique (x ∷ xs) = (has x xs ≡ false) × IsUnique xs

  pub has-append : (a : A) (xs ys : List A) → has a (xs ++ ys) ≡ (has a xs || has a ys)
  unfolding has
  has-append a [] ys = refl
  has-append a (x ∷ xs) ys = ground (arith, has-append a xs ys)

  pub has-keep : (p : A → Bool) (a : A) (xs : List A) → has a (keep p xs) ≡ (has a xs && p a)
  unfolding has
  has-keep p a [] = refl
  has-keep p a (x ∷ xs) = ground (arith, has-keep p a xs, e.beq_iff a x, ap p)

  has-add : (a b : A) (s : List A) → has a (add b s) ≡ (has a s || e.beq a b)
  unfolding add has
  has-add a b s = ground (arith, has-append a s (b ∷ []), e.beq_iff a b)

  has-add_all : (a : A) (s xs : List A) → has a (add_all s xs) ≡ (has a s || has a xs)
  unfolding add_all has
  has-add_all a s [] = ground arith
  has-add_all a s (x ∷ xs) = ground (arith, has-add_all a (add x s) xs, has-add a x s)

  pub has-of_list : (a : A) (xs : List A) → has a (of_list xs) ≡ has a xs
  unfolding of_list has
  has-of_list a xs = has-add_all a [] xs

  pub has-added : (a : A) (s : List A) → has a (add a s) ≡ true
  unfolding has
  has-added a s = ground (arith, has-add a a s, (e.beq_iff a a).1 refl)

  length-add :
      (a : A) (s : List A) → length (add a s) ≡ (if has a s then length s else length s + 1)
  unfolding add
  length-add a s = ground (arith, length-append s (a ∷ []))

  length-add_all-le : (s xs : List A) → length (add_all s xs) ≤ length s + length xs
  unfolding add_all
  length-add_all-le s [] = omega arith
  length-add_all-le s (x ∷ xs) = ground (arith, length-add_all-le (add x s) xs, length-add x s)

  -- No item of the list is in the set yet.
  abbrev IsFresh : List A → List A → Type 0
  IsFresh s = All (λ y. has y s ≡ false)

  IsFresh-step : (x : A) (s xs : List A) → IsFresh (add x s) xs → IsFresh s xs × (has x xs ≡ false)
  unfolding has
  IsFresh-step x s [] h = (tt, refl)
  IsFresh-step x s (y ∷ xs) h =
      let (fresh, absent) = IsFresh-step x s xs h.1 in
      (
        (ground (arith, h.0, has-add y x s), fresh),
        ground (arith, h.0, has-add y x s, absent, e.beq_iff x y, e.beq_iff y x),
      )

  IsFresh-back : (x : A) (s xs : List A) → IsFresh s xs → has x xs ≡ false → IsFresh (add x s) xs
  unfolding has
  IsFresh-back x s [] f h = tt
  IsFresh-back x s (y ∷ xs) f h = (
    ground (arith, f.0, h, has-add y x s, e.beq_iff x y, e.beq_iff y x),
    IsFresh-back x s xs f.1 (ground (arith, h)),
  )

  add_all_full :
      (s xs : List A) → length (add_all s xs) ≡ length s + length xs → IsUnique xs × IsFresh s xs
  unfolding add_all
  add_all_full s [] h = (tt, tt)
  add_all_full s (x ∷ xs) h = elim (Bool-cases (has x s)) [
    | inl old ↦ absurd (ground (arith, old, h, length-add x s, length-add_all-le (add x s) xs))
    | inr new ↦
        let (unique, fresh) = add_all_full (add x s) xs (ground (arith, new, h, length-add x s)) in
        let (fresh', absent) = IsFresh-step x s xs fresh in ((absent, unique), (new, fresh'))
  ]

  add_all_grows :
      (s xs : List A) → IsUnique xs → IsFresh s xs → length (add_all s xs) ≡ length s + length xs
  unfolding add_all
  add_all_grows s [] u f = omega arith
  add_all_grows s (x ∷ xs) u f =
      ground
        (arith, f.0, length-add x s, add_all_grows (add x s) xs u.1 (IsFresh-back x s xs f.1 u.0))

  IsFresh-nil : (xs : List A) → IsFresh [] xs
  unfolding has
  IsFresh-nil [] = tt
  IsFresh-nil (x ∷ xs) = (refl, IsFresh-nil xs)

  -- The test by the size of the set is exactly the absence of duplicates.
  pub has_unique_entries_iff : (xs : List A) → (has_unique_entries xs ≡ true) ↔ IsUnique xs
  unfolding has_unique_entries
  has_unique_entries_iff xs = (
    λ h. (add_all_full [] xs (ground (arith, h))).0,
    λ u. ground (arith, add_all_grows [] xs u (IsFresh-nil xs)),
  )
