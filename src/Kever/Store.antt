-- ===== src/Kever/Store.antt =====
-- The reads of packages/keri/src/db/basing.ts (`Baser`) and of its ordinal table
-- (packages/keri/src/db/subing.ts, `OnIoDupSuber`) that the key-event state machine makes, and the
-- tests of packages/keri/src/core/kever.ts on who is local.
pub mod Cache
pub mod Quiet
pub mod Yields
use keri_ts.Prelude.{
  ℕ, suc, ◌-◌, Bool, true, false, not, ◌&&◌, ◌||◌, Option, none, some, List, [], ◌∷◌, String,
  str_eq, ◌==◌, if◌then◌else◌, keep, is_some, truthy, zero,
}
use keri_ts.Prelude.Sets.{string_eq, has}
use keri_ts.Prelude.Maps.{lookup, pin, dg_key_eq}
use keri_ts.Prelude.Sort.{sort_by}
use keri_ts.Prelude.Result.{Result, ok, err, ◌>>=◌}
use keri_ts.Event.{Serder, KeyStateRecord}
use keri_ts.Kever.{Primitives, Thrown, missing_event, Kever, KelItem, HabitatRecord, Baser}
use keri_ts.Kever.Load.{load_state, need_text}

-- A method that may throw, and that changes the tables and the cache.
abbrev pub Step : Type 0 → Type 0
Step A = Result Thrown (A × Baser)

unfoldable pub get_evt_serder : Baser → String → String → Option Serder
get_evt_serder db pre said = lookup (pre, said) db.evts

-- `kels.getLast`: the last that was added under the ordinal.
unfoldable pub get_last : List KelItem → String → ℕ → Option String
get_last [] pre sn = none
get_last (item ∷ items) pre sn = elim (get_last items pre sn) [
  | some said ↦ some said
  | none ↦ if str_eq item.pre pre && item.sn == sn then some item.said else none
]

-- The ordinal may be -1, under which nothing stands: `sn` is one more than it.
unfoldable pub get_last_before : List KelItem → String → ℕ → Option String
unfolding get_last
get_last_before kels pre zero = none
get_last_before kels pre (suc psn) = get_last kels pre psn

-- `kels.getAllItemIter`: by rising ordinal, and by insertion under one ordinal.
unfoldable pub get_all_items : List KelItem → String → List KelItem
get_all_items kels pre = sort_by (λ item. item.sn) (keep (λ item. str_eq item.pre pre) kels)

-- The last item of each run of one ordinal.
unfoldable pub last_items : List KelItem → List KelItem
last_items [] = []
last_items (item ∷ []) = item ∷ []
last_items (item ∷ next ∷ items) =
    let rest = last_items (next ∷ items) in if item.sn == next.sn then rest else item ∷ rest

unfoldable pub get_kel_items : Baser → String → List KelItem
unfolding last_items get_all_items
get_kel_items db pre = last_items (get_all_items db.kels pre)

-- `reload`: the record's event must be there.
unfoldable pub reload_event : Baser → String → String → Result Thrown Serder
reload_event db i d = elim (get_evt_serder db i d) [
  | none ↦ err missing_event
  | some serder ↦ ok serder
]

unfoldable pub from_state : Primitives → Baser → KeyStateRecord → Result Thrown Kever
from_state prim db state = do
  i ← need_text state.i
  d ← need_text state.d
  serder ← reload_event db i d
  load_state prim state serder

-- `getKever`, without a refresh
unfoldable pub get_kever : Primitives → Baser → String → Step (Option Kever)
get_kever prim db pre = elim (lookup pre db.kevers) [
  | some current ↦ ok (some current, db)
  | none ↦ elim (lookup pre db.states) [
    | none ↦ ok (none, db)
    | some state ↦ from_state prim db state >>= λ kever.
        ok (some kever, record db { kevers = pin pre kever db.kevers })
  ]
]

unfoldable pub has_hab : Baser → String → Bool
has_hab db pre = is_some (lookup pre db.habs)

-- `habord !== null && !habord.mid`
unfoldable pub is_single : Option HabitatRecord → Bool
is_single none = false
is_single (some habord) = not (truthy habord.mid)

unfoldable pub locally_owned : Baser → String → Bool
locally_owned db pre =
    truthy (some pre) && is_single (lookup pre db.habs) && not (has pre db.groups)

unfoldable pub locally_delegated : Baser → Option String → Bool
locally_delegated db none = false
locally_delegated db (some pre) = truthy (some pre) && has_hab db pre

unfoldable pub locally_membered : Baser → String → Bool
locally_membered db pre = has pre db.groups

-- `wits.some((wit) => db.getHab(wit) !== null)`
unfoldable pub locally_witnessed : Baser → List String → Bool
locally_witnessed db [] = false
locally_witnessed db (wit ∷ wits) = has_hab db wit || locally_witnessed db wits
