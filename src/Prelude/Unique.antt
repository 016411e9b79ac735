-- ===== src/Prelude/Unique.antt =====
-- Lists without duplicates under append and filter, and their lengths.
use mathlib.Core.Logic.{inl, inr}
use Prim.Native.Nat.{◌+◌}
use mathlib.Core.Path.{◌≡◌, refl, ap, subst}
use mathlib.Core.Bool.{Bool, true, false, not}
use mathlib.Core.List.{List, [], ◌∷◌, ◌++◌}
use native.Mathlib.Omega.{arith}
use keri_ts.Prelude.Tests.{Bool-cases}
use keri_ts.Prelude.Lists.{length, keep, every}
use keri_ts.Prelude.Sets.{Eq, has, IsUnique, has-append, has-keep}

module _ {ℓ} {A : Type ℓ} ⦃e : Eq A⦄ where
  -- The two lists share no item.
  abbrev pub AreDisjoint : List A → List A → Type ℓ
  AreDisjoint xs ys = (a : A) → has a xs ≡ true → has a ys ≡ false

  pub AreDisjoint-symm : (xs ys : List A) → AreDisjoint xs ys → AreDisjoint ys xs
  AreDisjoint-symm xs ys d a h = elim (Bool-cases (has a xs)) [
    | inl both ↦ cc (d a both)
    | inr no_member ↦ no_member
  ]

  pub has_self : (a : A) (xs : List A) → has a (a ∷ xs) ≡ true
  unfolding has
  has_self a xs = ground (arith, e.beq_iff a a)

  disjoint_tail : (x : A) (xs ys : List A) → AreDisjoint (x ∷ xs) ys → AreDisjoint xs ys
  unfolding has
  disjoint_tail x xs ys d a h = d a (ground (arith, h))

  pub append-IsUnique :
      (xs ys : List A) → IsUnique xs → IsUnique ys → AreDisjoint xs ys → IsUnique (xs ++ ys)
  append-IsUnique [] ys ux uy d = uy
  append-IsUnique (x ∷ xs) ys ux uy d = (
    ground (arith, ux.0, d x (has_self x xs), has-append x xs ys),
    append-IsUnique xs ys ux.1 uy (disjoint_tail x xs ys d),
  )

  pub keep-IsUnique : (p : A → Bool) (xs : List A) → IsUnique xs → IsUnique (keep p xs)
  keep-IsUnique p [] u = tt
  keep-IsUnique p (x ∷ xs) u = ground (arith, u.0, keep-IsUnique p xs u.1, has-keep p x xs)

  pub every-has :
      (p : A → Bool) (a : A) (xs : List A) → every p xs ≡ true → has a xs ≡ true → p a ≡ true
  unfolding has
  every-has p a [] h m = cc
  every-has p a (x ∷ xs) h m = ground (arith, every-has p a xs, e.beq_iff a x, ap p)

  pub has-every :
      (p : A → Bool) (xs : List A) → ((a : A) → has a xs ≡ true → p a ≡ true) → every p xs ≡ true
  unfolding has
  has-every p [] h = refl
  has-every p (x ∷ xs) h =
      let first : p x ≡ true = h x (has_self x xs) in
      let rest : every p xs ≡ true = has-every p xs (λ a m. h a (ground (arith, m))) in
      ground (arith, first, rest)

  -- Filtering out one item of a list that holds it once.
  keep_absent : (c : A) (xs : List A) → has c xs ≡ false → keep (λ x. not (e.beq x c)) xs ≡ xs
  unfolding has
  keep_absent c [] h = refl
  keep_absent c (x ∷ xs) h = ground (arith, keep_absent c xs, e.beq_iff x c, e.beq_iff c x)

  length-keep_one :
      (c : A) (xs : List A)
      → IsUnique xs
      → has c xs ≡ true
      → length (keep (λ x. not (e.beq x c)) xs) + 1 ≡ length xs
  unfolding has
  length-keep_one c [] u h = cc
  length-keep_one c (x ∷ xs) u h = elim (Bool-cases (e.beq x c)) [
    | inl same ↦
        let absent : has c xs ≡ false =
          subst (λ z. has z xs ≡ false) ((e.beq_iff x c).0 same) u.0 in
        ground (arith, same, ap length (keep_absent c xs absent))
    | inr other ↦ ground (arith, other, h, e.beq_iff c x, e.beq_iff x c, length-keep_one c xs u.1)
  ]

  keep_both :
      (c : A) (cs xs : List A)
      → keep (λ x. not (has x (c ∷ cs))) xs
        ≡ keep (λ x. not (has x cs)) (keep (λ x. not (e.beq x c)) xs)
  unfolding has
  keep_both c cs [] = refl
  keep_both c cs (x ∷ xs) = ground (arith, keep_both c cs xs)

  keep_all : (xs : List A) → keep (λ x. not (has x [])) xs ≡ xs
  unfolding has
  keep_all [] = refl
  keep_all (x ∷ xs) = ap (λ (l : List A). x ∷ l) (keep_all xs)

  has_others :
      (c a : A) (cs xs : List A)
      → has c cs ≡ false
      → has a cs ≡ true
      → has a xs ≡ true
      → has a (keep (λ x. not (e.beq x c)) xs) ≡ true
  has_others c a cs xs absent m h =
      ground (arith, e.beq_iff a c, has-keep (λ x. not (e.beq x c)) a xs, ap (λ z. has z cs))

  has_more : (c a : A) (cs : List A) → has a cs ≡ true → has a (c ∷ cs) ≡ true
  unfolding has
  has_more c a cs m = ground arith

  -- Filtering a set out of a list that includes it leaves the difference of the lengths.
  pub length-keep_difference :
      (cs xs : List A)
      → IsUnique cs
      → IsUnique xs
      → ((a : A) → has a cs ≡ true → has a xs ≡ true)
      → length (keep (λ x. not (has x cs)) xs) + length cs ≡ length xs
  length-keep_difference [] xs uc ux sub = omega (arith, ap length (keep_all xs))
  length-keep_difference (c ∷ cs) xs uc ux sub =
      let others : List A = keep (λ x. not (e.beq x c)) xs in
      omega (
        arith,
        ap length (keep_both c cs xs),
        length-keep_one c xs ux (sub c (has_self c cs)),
        length-keep_difference cs others uc.1 (keep-IsUnique (λ x. not (e.beq x c)) xs ux)
            (λ a m. has_others c a cs xs uc.0 m (sub a (has_more c a cs m))),
      )
