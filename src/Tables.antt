-- ===== src/Tables.antt =====
-- The tables of the database, by what their families promise (packages/keri/src/db/subing.ts):
-- `Suber` (one value for a key), `CesrIoSetSuber` (a set in insertion order for a key), `OnIoDupSuber`
-- and `IoSetSuber` (digests under a prefix, or under a prefix and an ordinal, in insertion order) and
-- `OnSuber` (a log under the next free ordinal). Their LMDB encoding is not modelled.
pub mod Contiguous
use Prim.Native.String.{compare}
use text.Mathlib.Text.{is_lt}
use keri_ts.Prelude.{
  ℕ, suc, ◌≡◌, refl, ap, ◌↔◌, Bool, true, false, not, ◌&&◌, ◌||◌, Option, none, some, List, [], ◌∷◌,
  ◌++◌, String, str_eq, eq_iff, ltb, leb, ◌==◌, ==_iff, if◌then◌else◌, is_some, or_else, keep,
  arith,
}
use keri_ts.Prelude.Sets.{Eq, has, add, add_all}
use keri_ts.Prelude.Sort.{sort_with}
use keri_ts.Prelude.Maps.{Map, DgKey, same_key, lookup, pin}

module _ {ℓ κ} {K : Type ℓ} {V : Type κ} ⦃e : Eq K⦄ where
  -- `Suber.put`: what is there stays.
  unfoldable pub put : K → V → Map K V → Map K V
  put key val table = if is_some (lookup key table) then table else pin key val table

module _ {ℓ κ} {K : Type ℓ} {V : Type κ} ⦃e : Eq K⦄ ⦃v : Eq V⦄ where
  -- `CesrIoSetSuber.get`
  unfoldable pub get_set : K → Map K (List V) → List V
  get_set key table = or_else (lookup key table) []

  -- `CesrIoSetSuber.put`, of at least one value: those that are not there are added at the end.
  unfoldable pub put_set : K → List V → Map K (List V) → Map K (List V)
  unfolding get_set
  put_set key [] table = table
  put_set key (val ∷ vals) table = pin key (add_all (get_set key table) (val ∷ vals)) table

-- A digest under a prefix and an ordinal.
pub record KelItem : Type 0 where
  pub pre : String
  pub sn : ℕ
  pub said : String

abbrev pub same_item : KelItem → KelItem → Bool
same_item a b = str_eq a.pre b.pre && a.sn == b.sn && str_eq a.said b.said

pub same_item_iff : (a b : KelItem) → (same_item a b ≡ true) ↔ (a ≡ b)
same_item_iff a b = (
  λ h. cc (
    (eq_iff a.pre b.pre).0 (ground (arith, h)),
    (==_iff a.sn b.sn).0 (ground (arith, h)),
    (eq_iff a.said b.said).0 (ground (arith, h)),
  ),
  λ h. ground (
    arith,
    (eq_iff a.pre b.pre).1 (ap (λ (x : KelItem). x.pre) h),
    (==_iff a.sn b.sn).1 (ap (λ (x : KelItem). x.sn) h),
    (eq_iff a.said b.said).1 (ap (λ (x : KelItem). x.said) h),
  ),
)

instance abbrev pub kel_item_eq : Eq KelItem
kel_item_eq = record { beq = same_item; beq_iff = same_item_iff }

-- `OnIoDupSuber.addOn`
abbrev pub add_on : String → ℕ → String → List KelItem → List KelItem
add_on pre sn said items = add (record { pre = pre; sn = sn; said = said }) items

-- `OnIoDupSuber.remOn`
abbrev pub rem_on : String → ℕ → String → List KelItem → List KelItem
rem_on pre sn said items =
    keep (λ item. not (same_item item (record { pre = pre; sn = sn; said = said }))) items

-- `getTopItemIter` of such a table: by the prefix, then by the ordinal, then by insertion.
abbrev pub item_before : KelItem → KelItem → Bool
item_before a b = is_lt (compare a.pre b.pre) || (str_eq a.pre b.pre && leb a.sn b.sn)

unfoldable pub top_items : List KelItem → List KelItem
top_items items = sort_with item_before items

-- A digest under a prefix.
abbrev pub SetItem : Type 0
SetItem = DgKey

-- `IoSetSuber.rem`
abbrev pub rem_from : String → String → List SetItem → List SetItem
rem_from pre said items = keep (λ item. not (same_key item (pre, said))) items

abbrev pub set_item_before : SetItem → SetItem → Bool
set_item_before a b = is_lt (compare a.0 b.0) || str_eq a.0 b.0

unfoldable pub top_set_items : List SetItem → List SetItem
top_set_items items = sort_with set_item_before items

-- The ordinal that `OnSuber.appendOn` gives: one more than the last under the prefix.
unfoldable pub next_on : String → List KelItem → ℕ
next_on pre [] = 0
next_on pre (item ∷ items) =
    let rest = next_on pre items in
    if str_eq item.pre pre && leb rest item.sn then suc item.sn else rest

unfoldable pub append_on : String → String → List KelItem → List KelItem
unfolding next_on
append_on pre said items = items ++ record { pre = pre; sn = next_on pre items; said = said } ∷ []
