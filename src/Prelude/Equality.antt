-- ===== src/Prelude/Equality.antt =====
-- The equality tests of lists and of values that may be missing, from that of their items.
use mathlib.Core.Path.{◌≡◌, sym, ◌∙◌, ap}
use mathlib.Core.Logic.{◌↔◌}
use mathlib.Core.Bool.{Bool, true, false, ◌&&◌}
use mathlib.Core.Option.{Option, none, some}
use mathlib.Core.List.{List, [], ◌∷◌}
use native.Mathlib.Omega.{arith}
use keri_ts.Prelude.Sets.{Eq}

module _ {ℓ} {A : Type ℓ} ⦃e : Eq A⦄ where
  abbrev pub same_list : List A → List A → Bool
  same_list [] [] = true
  same_list [] (y ∷ ys) = false
  same_list (x ∷ xs) [] = false
  same_list (x ∷ xs) (y ∷ ys) = e.beq x y && same_list xs ys

  same_list-eq : (xs ys : List A) → same_list xs ys ≡ true → xs ≡ ys
  same_list-eq [] [] h = cc
  same_list-eq [] (y ∷ ys) h = absurd (cc h)
  same_list-eq (x ∷ xs) [] h = absurd (cc h)
  same_list-eq (x ∷ xs) (y ∷ ys) h =
      cc ((e.beq_iff x y).0 (ground (arith, h)), same_list-eq xs ys (ground (arith, h)))

  same_list_self : (xs : List A) → same_list xs xs ≡ true
  same_list_self [] = cc
  same_list_self (x ∷ xs) = ground (arith, (e.beq_iff x x).1 (cc), same_list_self xs)

  pub same_list_iff : (xs ys : List A) → (same_list xs ys ≡ true) ↔ (xs ≡ ys)
  same_list_iff xs ys = (same_list-eq xs ys, λ h. ap (same_list xs) (sym h) ∙ same_list_self xs)

  abbrev pub same_option : Option A → Option A → Bool
  same_option none none = true
  same_option none (some y) = false
  same_option (some x) none = false
  same_option (some x) (some y) = e.beq x y

  same_option-eq : (a b : Option A) → same_option a b ≡ true → a ≡ b
  same_option-eq none none h = cc
  same_option-eq none (some y) h = absurd (cc h)
  same_option-eq (some x) none h = absurd (cc h)
  same_option-eq (some x) (some y) h = ap some ((e.beq_iff x y).0 h)

  same_option_self : (a : Option A) → same_option a a ≡ true
  same_option_self none = cc
  same_option_self (some x) = (e.beq_iff x x).1 cc

  pub same_option_iff : (a b : Option A) → (same_option a b ≡ true) ↔ (a ≡ b)
  same_option_iff a b = (same_option-eq a b, λ h. ap (same_option a) (sym h) ∙ same_option_self a)
