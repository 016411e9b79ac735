-- ===== src/Kevery/Buckets.antt =====
-- The buckets of the escrowed events: what a replay takes out of one, and what leaves them alone.
use keri_ts.Prelude.{
  ℕ, ◌≡◌, refl, ◌∙◌, ap, false, not, Option, List, String, or_else, arith, ◌||◌, if◌then◌else◌,
  true, ◌==◌, ==_iff, ◌↔◌, sym,
}
use keri_ts.Prelude.Sets.{string_eq, has, has-keep, has-added}
use keri_ts.Prelude.Maps.{dg_key_eq, same_key, same_key_iff}
use keri_ts.Tables.{KelItem, SetItem, kel_item_eq, same_item, same_item_iff, rem_on, rem_from}
use keri_ts.Event.Decision.{
  EscrowKind, ooo, partial_sigs, partial_wigs, partial_dels, delegables, duplicitous, misfit,
  query_not_found,
}
use keri_ts.Kever.{Baser}
use keri_ts.Kevery.Escrow.{enter_bucket, remove_escrow}
use keri_ts.Kevery.Replay.{ordinal_bucket, set_bucket, same_kind, kind_number}

-- The entry is not in the bucket of the kind.
abbrev pub IsOut : EscrowKind → String → Option ℕ → String → Baser → Type 0
IsOut kind pre on said db =
    (has (record { pre = pre; sn = or_else on 0; said = said }) (ordinal_bucket kind db) ≡ false)
    × (has (pre, said) (set_bucket kind db) ≡ false)

rem_on-gone :
    (pre : String) (sn : ℕ) (said : String) (items : List KelItem)
    → has (record { pre = pre; sn = sn; said = said }) (rem_on pre sn said items) ≡ false
rem_on-gone pre sn said items =
    let item : KelItem = record { pre = pre; sn = sn; said = said } in
    ground
      (arith, has-keep (λ x. not (same_item x item)) item items, (same_item_iff item item).1 refl)

rem_from-gone :
    (pre said : String) (items : List SetItem) → has (pre, said) (rem_from pre said items) ≡ false
rem_from-gone pre said items = ground (
  arith,
  has-keep (λ x. not (same_key x (pre, said))) (pre, said) items,
  (same_key_iff (pre, said) (pre, said)).1 refl,
)

pub removed-IsOut :
    (kind : EscrowKind) (pre : String) (on : Option ℕ) (said : String) (db : Baser)
    → IsOut kind pre on said (remove_escrow kind pre on said db)
unfolding remove_escrow has
removed-IsOut ooo pre on said db = (rem_on-gone pre (or_else on 0) said db.ooes, refl)
removed-IsOut partial_sigs pre on said db = (rem_on-gone pre (or_else on 0) said db.pses, refl)
removed-IsOut partial_wigs pre on said db = (rem_on-gone pre (or_else on 0) said db.pwes, refl)
removed-IsOut partial_dels pre on said db = (rem_on-gone pre (or_else on 0) said db.pdes, refl)
removed-IsOut duplicitous pre on said db = (rem_on-gone pre (or_else on 0) said db.ldes, refl)
removed-IsOut delegables pre on said db = (refl, rem_from-gone pre said db.delegables)
removed-IsOut misfit pre on said db = (refl, rem_from-gone pre said db.misfits)
removed-IsOut query_not_found pre on said db = (refl, rem_from-gone pre said db.qnfs)

-- An entry in the bucket of another reason.
pub entered-IsOut :
    (reason kind : EscrowKind) (pre : String) (on : Option ℕ) (said : String) (db : Baser)
    (pre' : String) (sn : ℕ) (said' : String)
    → same_kind reason kind ≡ false
    → IsOut kind pre on said db
    → IsOut kind pre on said (enter_bucket reason pre' sn said' db)
unfolding enter_bucket same_kind
entered-IsOut ooo kind pre on said db pre' sn said' other out = ground (arith, other, out)
entered-IsOut partial_sigs kind pre on said db pre' sn said' other out = ground (arith, other, out)
entered-IsOut partial_wigs kind pre on said db pre' sn said' other out = ground (arith, other, out)
entered-IsOut partial_dels kind pre on said db pre' sn said' other out = ground (arith, other, out)
entered-IsOut delegables kind pre on said db pre' sn said' other out = ground (arith, other, out)
entered-IsOut duplicitous kind pre on said db pre' sn said' other out = ground (arith, other, out)
entered-IsOut misfit kind pre on said db pre' sn said' other out = ground (arith, other, out)
entered-IsOut query_not_found kind pre on said db pre' sn said' other out =
    ground (arith, other, out)

abbrev pub Buckets : Type 0
Buckets =
    List KelItem
    × List KelItem
    × List KelItem
    × List KelItem
    × List KelItem
    × List SetItem
    × List SetItem
    × List SetItem

abbrev pub buckets : Baser → Buckets
buckets db = (db.ooes, db.pses, db.pwes, db.pdes, db.ldes, db.delegables, db.misfits, db.qnfs)

-- Where the buckets are the same, so is what is out of them.
pub same-IsOut :
    (kind : EscrowKind) (pre : String) (on : Option ℕ) (said : String) (db db' : Baser)
    → buckets db' ≡ buckets db
    → IsOut kind pre on said db
    → IsOut kind pre on said db'
same-IsOut ooo pre on said db db' same out = (
  ap (λ (b : Buckets). has (record { pre = pre; sn = or_else on 0; said = said }) b.0) same ∙ out.0,
  out.1,
)
same-IsOut partial_sigs pre on said db db' same out = (
  ap (λ (b : Buckets). has (record { pre = pre; sn = or_else on 0; said = said }) b.1) same ∙ out.0,
  out.1,
)
same-IsOut partial_wigs pre on said db db' same out = (
  ap (λ (b : Buckets). has (record { pre = pre; sn = or_else on 0; said = said }) b.2) same ∙ out.0,
  out.1,
)
same-IsOut partial_dels pre on said db db' same out = (
  ap (λ (b : Buckets). has (record { pre = pre; sn = or_else on 0; said = said }) b.3) same ∙ out.0,
  out.1,
)
same-IsOut duplicitous pre on said db db' same out = (
  ap (λ (b : Buckets). has (record { pre = pre; sn = or_else on 0; said = said }) b.4) same ∙ out.0,
  out.1,
)
same-IsOut delegables pre on said db db' same out =
    (out.0, ap (λ (b : Buckets). has (pre, said) b.5) same ∙ out.1)
same-IsOut misfit pre on said db db' same out =
    (out.0, ap (λ (b : Buckets). has (pre, said) b.6) same ∙ out.1)
same-IsOut query_not_found pre on said db db' same out =
    (out.0, ap (λ (b : Buckets). has (pre, said) b.7) same ∙ out.1)

-- The entry is in the bucket of the kind.
abbrev pub IsIn : EscrowKind → String → ℕ → String → Baser → Type 0
IsIn kind pre sn said db =
    (has (record { pre = pre; sn = sn; said = said }) (ordinal_bucket kind db)
      || has (pre, said) (set_bucket kind db))
    ≡ true

pub entered-IsIn :
    (kind : EscrowKind) (pre : String) (sn : ℕ) (said : String) (db : Baser)
    → IsIn kind pre sn said (enter_bucket kind pre sn said db)
unfolding enter_bucket has
entered-IsIn ooo pre sn said db =
    ground (arith, has-added (record { pre = pre; sn = sn; said = said }) db.ooes)
entered-IsIn partial_sigs pre sn said db =
    ground (arith, has-added (record { pre = pre; sn = sn; said = said }) db.pses)
entered-IsIn partial_wigs pre sn said db =
    ground (arith, has-added (record { pre = pre; sn = sn; said = said }) db.pwes)
entered-IsIn partial_dels pre sn said db =
    ground (arith, has-added (record { pre = pre; sn = sn; said = said }) db.pdes)
entered-IsIn delegables pre sn said db = ground (arith, has-added (pre, said) db.delegables)
entered-IsIn duplicitous pre sn said db =
    ground (arith, has-added (record { pre = pre; sn = sn; said = said }) db.ldes)
entered-IsIn misfit pre sn said db = ground (arith, has-added (pre, said) db.misfits)
entered-IsIn query_not_found pre sn said db = ground (arith, has-added (pre, said) db.qnfs)

abbrev kind_at : ℕ → EscrowKind
kind_at n =
    if n == 0
    then ooo
    else if n == 1
    then partial_sigs
    else if n == 2
    then partial_wigs
    else if n == 3
    then partial_dels
    else if n == 4
    then delegables
    else if n == 5
    then duplicitous
    else if n == 6
    then misfit
    else query_not_found

kind_at-number : (kind : EscrowKind) → kind_at (kind_number kind) ≡ kind
kind_at-number ooo = refl
kind_at-number partial_sigs = refl
kind_at-number partial_wigs = refl
kind_at-number partial_dels = refl
kind_at-number delegables = refl
kind_at-number duplicitous = refl
kind_at-number misfit = refl
kind_at-number query_not_found = refl

-- The comparison of two reasons is exact.
pub same_kind_iff : (a b : EscrowKind) → (same_kind a b ≡ true) ↔ (a ≡ b)
unfolding same_kind
same_kind_iff a b = (
  λ h.
      sym (kind_at-number a)
      ∙ ap kind_at ((==_iff (kind_number a) (kind_number b)).0 h)
      ∙ kind_at-number b,
  λ e. (==_iff (kind_number a) (kind_number b)).1 (ap kind_number e),
)
