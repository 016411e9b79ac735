-- ===== src/Kever/Store/Quiet.antt =====
-- A step that changes no table but the stored source seals, and the cache of live states.
use mathlib.Core.Path.{subst}
use keri_ts.Prelude.{
  ◌≡◌, refl, ◌∙◌, ap, Bool, true, false, Option, none, some, String, if◌then◌else◌,
}
use keri_ts.Prelude.Maps.{Map, DgKey}
use keri_ts.Prelude.Result.{Result, ok, err, ◌>>=◌}
use keri_ts.Event.{SourceSeal}
use keri_ts.Kever.{Thrown, Kever, Baser}
use keri_ts.Kever.Store.{Step}
use keri_ts.Kever.Store.Cache.{IsCached}

pub record IsQuiet (db db' : Baser) : Type 0 where
  pub seals : Map DgKey SourceSeal
  pub cache : Map String Kever
  pub same : db' ≡ record db { aess = seals; kevers = cache }

pub IsQuiet-refl : (db : Baser) → IsQuiet db db
IsQuiet-refl db = record { seals = db.aess; cache = db.kevers; same = refl }

pub IsQuiet-trans : (a b c : Baser) → IsQuiet a b → IsQuiet b c → IsQuiet a c
IsQuiet-trans a b c ab bc = record {
  seals = bc.seals;
  cache = bc.cache;
  same = bc.same ∙ ap (λ (x : Baser). record x { aess = bc.seals; kevers = bc.cache }) ab.same;
}

pub cached-IsQuiet : (db db' : Baser) → IsCached db db' → IsQuiet db db'
cached-IsQuiet db db' c = record { seals = db.aess; cache = c.cache; same = c.same }

abbrev pub Quiet : {A : Type 0} → Baser → Step A → Type 0
Quiet {A} db step = (r : A × Baser) → step ≡ ok r → IsQuiet db r.1

module _ {A : Type 0} (db : Baser) where
  pub ok-Quiet : (a : A) → Quiet {A = A} db (ok (a, db))
  ok-Quiet a r e = let same : db ≡ r.1 = cc e in subst (IsQuiet db) same (IsQuiet-refl db)

  pub moved-Quiet : (a : A) (db' : Baser) → IsQuiet db db' → Quiet {A = A} db (ok (a, db'))
  moved-Quiet a db' q r e = let same : db' ≡ r.1 = cc e in subst (IsQuiet db) same q

  pub err-Quiet : (thrown : Thrown) → Quiet {A = A} db (err thrown)
  err-Quiet thrown r e = absurd (cc e)

  pub if-Quiet : (b : Bool) (x y : Step A) → Quiet db x → Quiet db y → Quiet db (if b then x else y)
  if-Quiet true x y qx qy = qx
  if-Quiet false x y qx qy = qy

pub option-Quiet :
    {A B : Type 0} (db : Baser) (o : Option B) (x : Step A) (f : B → Step A)
    → Quiet db x
    → ((b : B) → Quiet db (f b))
    → Quiet db (elim o [ none ↦ x | some b ↦ f b ])
option-Quiet db none x f qx qf = qx
option-Quiet db (some b) x f qx qf = qf b

pub then-Quiet :
    {A B : Type 0} (db : Baser) (m : Step A) (f : A × Baser → Step B)
    → Quiet db m
    → ((r : A × Baser) → Quiet r.1 (f r))
    → Quiet db (m >>= f)
then-Quiet db (ok a) f qm qf r e = IsQuiet-trans db a.1 r.1 (qm a refl) (qf a r e)
then-Quiet db (err thrown) f qm qf r e = absurd (cc e)

-- A part that may throw, and that has no tables to change.
pub pure-Quiet :
    {A B : Type 0} (db : Baser) (m : Result Thrown A) (f : A → Step B)
    → ((a : A) → Quiet db (f a))
    → Quiet db (m >>= f)
pure-Quiet db (ok a) f qf r e = qf a r e
pure-Quiet db (err thrown) f qf r e = absurd (cc e)
