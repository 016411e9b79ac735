-- ===== src/Kever/Store/Cache.antt =====
-- A lookup of live states changes nothing but their cache.
use mathlib.Core.Path.{subst}
use keri_ts.Prelude.{
  ◌≡◌, refl, sym, ◌∙◌, ap, ◌||◌, Option, none, some, List, [], ◌∷◌, String, Option-cases, inl, inr,
  arith,
}
use keri_ts.Prelude.Sets.{string_eq}
use keri_ts.Prelude.Maps.{Map, lookup, pin}
use keri_ts.Prelude.Result.{Result, ok, ◌>>=◌, >>=-cases}
use keri_ts.Event.{KeyStateRecord}
use keri_ts.Kever.{Primitives, Thrown, Kever, Baser}
use keri_ts.Kever.Store.{from_state, get_kever, has_hab, locally_witnessed}

-- The tables are the same, and the cache is another.
pub record IsCached (db db' : Baser) : Type 0 where
  pub cache : Map String Kever
  pub same : db' ≡ record db { kevers = cache }

pub IsCached-refl : (db : Baser) → IsCached db db
IsCached-refl db = record { cache = db.kevers; same = refl }

pub IsCached-trans : (a b c : Baser) → IsCached a b → IsCached b c → IsCached a c
IsCached-trans a b c ab bc = record {
  cache = bc.cache;
  same = bc.same ∙ ap (λ (x : Baser). record x { kevers = bc.cache }) ab.same;
}

-- What returns the tables as they were.
pub same-IsCached :
    {A : Type 0} (x : A) (db : Baser) (r : A × Baser)
    → ◌≡◌ {A = Result Thrown (A × Baser)} (ok (x, db)) (ok r)
    → IsCached db r.1
same-IsCached x db r e = let same : db ≡ r.1 = cc e in subst (IsCached db) same (IsCached-refl db)

pub get_kever-IsCached :
    (prim : Primitives) (db : Baser) (pre : String) (found : Option Kever × Baser)
    → get_kever prim db pre ≡ ok found
    → IsCached db found.1
unfolding get_kever
get_kever-IsCached prim db pre found h = elim (Option-cases (lookup pre db.kevers)) [
  | inr (current, here) ↦ same-IsCached (some current) db found (ground (arith, here, h))
  | inl absent ↦ elim (Option-cases (lookup pre db.states)) [
    | inl unknown ↦ same-IsCached none db found (ground (arith, absent, unknown, h))
    | inr (state, known) ↦ loaded state (ground (arith, absent, known, h))
  ]
]
  where
    loaded :
        (state : KeyStateRecord)
        → (from_state prim db state >>= λ kever.
            ok (some kever, record db { kevers = pin pre kever db.kevers }))
          ≡ ok found
        → IsCached db found.1
    loaded state e = >>=-cases (from_state prim db state) _ e λ kever ek done. record {
      cache = pin pre kever db.kevers;
      same =
          let same : record db { kevers = pin pre kever db.kevers } ≡ found.1 = cc done in sym same;
    }

-- Who is local does not hang on the cache.
pub locally_witnessed-cached :
    (db : Baser) (cache : Map String Kever) (wits : List String)
    → locally_witnessed (record db { kevers = cache }) wits ≡ locally_witnessed db wits
unfolding locally_witnessed has_hab
locally_witnessed-cached db cache [] = refl
locally_witnessed-cached db cache (w ∷ wits) =
    ap (λ b. has_hab db w || b) (locally_witnessed-cached db cache wits)
