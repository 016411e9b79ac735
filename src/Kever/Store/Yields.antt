-- ===== src/Kever/Store/Yields.antt =====
-- A step whose result, where it returns, has a property.
use keri_ts.Prelude.{◌≡◌, refl, Bool, true, false, Option, none, some, if◌then◌else◌}
use keri_ts.Prelude.Result.{Result, ok, err, ◌>>=◌}
use keri_ts.Kever.{Thrown, Baser}
use keri_ts.Kever.Store.{Step}
use mathlib.Core.Path.{subst}

module _ {A : Type 0} (P : A → Type 0) where
  abbrev pub Yields : Step A → Type 0
  Yields step = (r : A × Baser) → step ≡ ok r → P r.0

  pub ok-Yields : (a : A) (db : Baser) → P a → Yields (ok (a, db))
  ok-Yields a db p r e = let same : a ≡ r.0 = cc e in subst P same p

  pub if-Yields :
      (b : Bool) (x y : Step A)
      → (b ≡ true → Yields x)
      → (b ≡ false → Yields y)
      → Yields (if b then x else y)
  if-Yields true x y px py = px refl
  if-Yields false x y px py = py refl

  pub option-Yields :
      {B : Type 0} (o : Option B) (x : Step A) (f : B → Step A)
      → Yields x
      → ((b : B) → o ≡ some b → Yields (f b))
      → Yields (elim o [ none ↦ x | some b ↦ f b ])
  option-Yields none x f px pf = px
  option-Yields (some b) x f px pf = pf b refl

  pub then-Yields :
      {B : Type 0} (m : Result Thrown B) (f : B → Step A)
      → ((b : B) → Yields (f b))
      → Yields (m >>= f)
  then-Yields (ok b) f pf r e = pf b r e
  then-Yields (err thrown) f pf r e = absurd (cc e)

  pub bind-Yields :
      {B : Type 0} (m : Result Thrown B) (f : B → Step A)
      → ((b : B) → m ≡ ok b → Yields (f b))
      → Yields (m >>= f)
  bind-Yields (ok b) f pf r e = pf b refl r e
  bind-Yields (err thrown) f pf r e = absurd (cc e)
