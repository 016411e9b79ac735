-- ===== src/Prelude/Options.antt =====
-- JavaScript's tests on a value that may be missing, and `??`.
use mathlib.Core.Path.{◌≡◌, ap}
use mathlib.Core.Bool.{Bool, true, false, not}
use mathlib.Core.Option.{Option, none, some}
use Prim.Native.String.{String}
use text.Mathlib.Text.{◌==◌ as str_eq}
use text.Mathlib.TextEquality.{eq_iff}
use mathlib.Core.Logic.{inl, inr}
use native.Mathlib.Omega.{arith}
use keri_ts.Prelude.Tests.{Bool-cases}

-- `a ?? b`
abbrev pub or_else {ℓ} : {A : Type ℓ} → Option A → A → A
or_else none b = b
or_else (some a) b = a

-- `a ?? b`, where `b` may be missing too
abbrev pub or_maybe {ℓ} : {A : Type ℓ} → Option A → Option A → Option A
or_maybe none b = b
or_maybe (some a) b = some a

-- `a !== null`
abbrev pub is_some {ℓ} : {A : Type ℓ} → Option A → Bool
is_some none = false
is_some (some _) = true

-- `!!text`
abbrev pub truthy : Option String → Bool
truthy none = false
truthy (some s) = not (str_eq s "")

-- `text || null`
abbrev pub non_empty : Option String → Option String
non_empty none = none
non_empty (some s) = elim (str_eq s "") [ true ↦ none | false ↦ some s ]

-- `maybe === text`
abbrev pub equals : Option String → String → Bool
equals none s = false
equals (some t) s = str_eq t s

-- `maybe === other`, of two texts that may be missing
abbrev pub same_text : Option String → Option String → Bool
same_text none none = true
same_text none (some t) = false
same_text (some s) none = false
same_text (some s) (some t) = str_eq s t

pub equals-some : (o : Option String) (s : String) → equals o s ≡ true → o ≡ some s
equals-some none s h = cc
equals-some (some t) s h = ap some ((eq_iff t s).0 h)

pub non_empty-eq : (o : Option String) (s : String) → non_empty o ≡ some s → o ≡ some s
non_empty-eq none s h = h
non_empty-eq (some t) s h = elim (Bool-cases (str_eq t "")) [
  | inl empty ↦ absurd (ground (arith, empty, h))
  | inr text ↦ ground (arith, text, h)
]
