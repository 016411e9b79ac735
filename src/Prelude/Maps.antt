-- ===== src/Prelude/Maps.antt =====
-- JavaScript's `Map`, and a table with one value for a key: an association list, in the order the
-- keys came.
use mathlib.Core.Path.{◌≡◌, refl, sym, ap}
use mathlib.Core.Logic.{◌↔◌, inl, inr}
use mathlib.Core.Bool.{Bool, true, ◌&&◌}
use mathlib.Core.Option.{Option, none, some}
use mathlib.Core.List.{List, [], ◌∷◌, map}
use Prim.Native.String.{String}
use native.Mathlib.Omega.{arith}
use text.Mathlib.Text.{◌==◌ as str_eq}
use text.Mathlib.TextEquality.{eq_iff}
use keri_ts.Prelude.Tests.{if◌then◌else◌, Bool-cases}
use keri_ts.Prelude.Sets.{Eq, has}

abbrev pub Map {ℓ κ} : Type ℓ → Type κ → Type (ℓ ⊔ κ)
Map K V = List (K × V)

-- `dgKey(pre, said)`: neither holds the separator, so the key is the pair.
abbrev pub DgKey : Type 0
DgKey = String × String

abbrev pub same_key : DgKey → DgKey → Bool
same_key a b = str_eq a.0 b.0 && str_eq a.1 b.1

pub same_key_iff : (a b : DgKey) → (same_key a b ≡ true) ↔ (a ≡ b)
same_key_iff a b = (
  λ h. cc ((eq_iff a.0 b.0).0 (ground (arith, h)), (eq_iff a.1 b.1).0 (ground (arith, h))),
  λ h. ground (arith, (eq_iff a.0 b.0).1 (cc h), (eq_iff a.1 b.1).1 (cc h)),
)

instance abbrev pub dg_key_eq : Eq DgKey
dg_key_eq = record { beq = same_key; beq_iff = same_key_iff }

module _ {ℓ κ} {K : Type ℓ} {V : Type κ} ⦃e : Eq K⦄ where
  unfoldable pub lookup : K → Map K V → Option V
  lookup k [] = none
  lookup k ((l, v) ∷ m) = let rest = lookup k m in if e.beq k l then some v else rest

  -- `pin`: the value of a key that is there is replaced.
  unfoldable pub pin : K → V → Map K V → Map K V
  pin k v [] = (k, v) ∷ []
  pin k v ((l, w) ∷ m) = let rest = pin k v m in if e.beq k l then (k, v) ∷ m else (l, w) ∷ rest

  -- `rem`
  unfoldable pub rem : K → Map K V → Map K V
  rem k [] = []
  rem k ((l, w) ∷ m) = let rest = rem k m in if e.beq k l then rest else (l, w) ∷ rest

  pub lookup-pin : (k : K) (v : V) (m : Map K V) → lookup k (pin k v m) ≡ some v
  unfolding lookup pin
  lookup-pin k v [] = rw (self k) refl
    where
      self : (k : K) → e.beq k k ≡ true
      self k = (e.beq_iff k k).1 refl
  lookup-pin k v ((l, w) ∷ m) = elim (Bool-cases (e.beq k l)) [
    | inl same ↦ rw same (rw ((e.beq_iff k k).1 refl) refl)
    | inr other ↦ rw other (rw other (lookup-pin k v m))
  ]

-- A value that a key has is among the values.
pub has-lookup {ℓ κ μ} :
    {K : Type ℓ} {V : Type κ} {W : Type μ} ⦃e : Eq K⦄ ⦃w : Eq W⦄ (f : V → W) (k : K) (v : V)
    (m : Map K V)
    → lookup k m ≡ some v
    → has (f v) (map (λ entry. f entry.1) m) ≡ true
unfolding lookup has
has-lookup f k v [] h = absurd (cc h)
has-lookup ⦃e⦄ ⦃w⦄ f k v ((l, u) ∷ m) h = elim (Bool-cases (e.beq k l)) [
  | inl same ↦
      let here : some u ≡ some v = ground (arith, same, h) in
      let equal : u ≡ v = cc here in ground (arith, (w.beq_iff (f v) (f u)).1 (ap f (sym equal)))
  | inr other ↦ ground (arith, has-lookup f k v m (ground (arith, other, h)))
]

module _ {ℓ κ} {K : Type ℓ} {V : Type κ} ⦃e : Eq K⦄ where
  -- A new key leaves the values that are there.
  pub lookup-pin-new :
      (k l : K) (v w : V) (m : Map K V)
      → lookup l m ≡ none
      → lookup k m ≡ some v
      → lookup k (pin l w m) ≡ some v
  unfolding lookup pin
  lookup-pin-new k l v w [] new there = absurd (cc there)
  lookup-pin-new k l v w ((x, u) ∷ m) new there = elim (Bool-cases (e.beq l x)) [
    | inl same ↦ absurd (ground (arith, same, new))
    | inr other ↦ elim (Bool-cases (e.beq k x)) [
      | inl here ↦ rw other (rw here (ground (arith, here, there)))
      | inr not_here ↦ rw other (
          rw not_here (
            lookup-pin-new k l v w m (ground (arith, other, new))
              (ground (arith, not_here, there))))
    ]
  ]
