-- ===== src/Kever/Load.antt =====
-- packages/keri/src/core/kever.ts: `loadState`, which makes a live state from a key-state record and
-- its event, and `state()`, which writes it back.
pub mod Throws
use keri_ts.Prelude.{
  ℕ, Bool, Option, none, some, List, [], ◌∷◌, ◌++◌, String, get_elem?, every, or_else, truthy,
  non_empty, if◌then◌else◌,
}
use keri_ts.Prelude.Sets.{string_eq, has}
use keri_ts.Prelude.Result.{Result, ok, err, guard, ◌>>=◌, ◌>>◌}
use keri_ts.Threshold.Tholder.{Tholder, Sith, text, sith, normalize_threshold_input}
use keri_ts.Event.{Serder, KeyStateRecord, StateEeRecord}
use keri_ts.Kever.{
  Primitives, Thrown, incomplete_state, invalid_prefix, invalid_verfer, invalid_diger, invalid_date,
  bad_threshold, Kever, encode_huge_ordinal, number_primitive_from_bigint,
}

-- `!value` of a text, and of a number's text, which is never empty
unfoldable pub need_text : Option String → Result Thrown String
need_text none = err incomplete_state
need_text (some s) = if truthy (some s) then ok s else err incomplete_state

unfoldable pub need : Option ℕ → Result Thrown ℕ
need none = err incomplete_state
need (some n) = ok n

unfoldable pub load_date : Option String → Result Thrown String
load_date none = err invalid_date
load_date (some s) = ok s

-- `state.kt !== undefined ? new Tholder({ sith: state.kt }) : null`
unfoldable pub load_threshold : Primitives → Option Sith → Result Thrown (Option Tholder)
load_threshold prim none = ok none
load_threshold prim (some form) = elim (normalize_threshold_input prim.parse_json (sith form)) [
  | ok t ↦ ok (some t)
  | err e ↦ err (bad_threshold e)
]

-- The parts of the establishment record, where it is there.
abbrev pub est_sn : Option StateEeRecord → ℕ
est_sn none = 0
est_sn (some ee) = or_else ee.s 0

abbrev pub est_said : Option StateEeRecord → String → String
est_said none d = d
est_said (some ee) d = or_else ee.d d

abbrev pub est_cuts : Option StateEeRecord → List String
est_cuts none = []
est_cuts (some ee) = or_else ee.br []

abbrev pub est_adds : Option StateEeRecord → List String
est_adds none = []
est_adds (some ee) = or_else ee.ba []

unfoldable pub load_state : Primitives → KeyStateRecord → Serder → Result Thrown Kever
load_state prim state serder = do
  i ← need_text state.i
  d ← need_text state.d
  s ← need state.s
  f ← need state.f
  dt ← need_text state.dt
  et ← need_text state.et
  guard (prim.is_prefix i) invalid_prefix
  dater ← load_date (prim.dater dt)
  tholder ← load_threshold prim state.kt
  ntholder ← load_threshold prim state.nt
  guard (every prim.is_verfer (or_else state.k [])) invalid_verfer
  guard (every prim.is_diger (or_else state.n [])) invalid_diger
  toader ← number_primitive_from_bigint (or_else state.bt 0)
  ok (record {
    version = (or_else (get_elem? state.vn 0) 1, or_else (get_elem? state.vn 1) 0);
    pre = i;
    transferable = prim.is_transferable i;
    sn = encode_huge_ordinal s;
    fn = encode_huge_ordinal f;
    dater = dater;
    serder = serder;
    ilk = et;
    tholder = tholder;
    verfers = or_else state.k [];
    ndigers = or_else state.n [];
    ntholder = ntholder;
    toader = toader;
    wits = or_else state.b [];
    cuts = est_cuts state.ee;
    adds = est_adds state.ee;
    est_only = has "EO" (or_else state.c []);
    do_not_delegate = has "DND" (or_else state.c []);
    last_est = record { s = est_sn state.ee; d = est_said state.ee d };
    delegated = truthy (non_empty state.di);
    delpre = non_empty state.di;
  })

-- `tholder?.sith ?? "0"`
abbrev pub sith_of : Option Tholder → Sith
sith_of none = text (b'0' ∷ [])
sith_of (some t) = t.semantic

-- `[...(estOnly ? ["EO"] : []), ...(doNotDelegate ? ["DND"] : [])]`
abbrev pub config_traits : Bool → Bool → List String
config_traits est_only do_not_delegate =
    (if est_only then "EO" ∷ [] else []) ++ (if do_not_delegate then "DND" ∷ [] else [])

-- `state()`
unfoldable pub state_of : Kever → KeyStateRecord
state_of k = record {
  vn = k.version.0 ∷ k.version.1 ∷ [];
  i = some k.pre;
  s = some k.sn;
  p = some (or_else k.serder.prior "");
  d = some (or_else k.serder.said "");
  f = some k.fn;
  dt = some k.dater;
  et = some k.ilk;
  kt = some (sith_of k.tholder);
  k = some k.verfers;
  nt = some (sith_of k.ntholder);
  n = some k.ndigers;
  bt = some k.toader;
  b = some k.wits;
  c = some (config_traits k.est_only k.do_not_delegate);
  ee =
      some (record {
        s = some k.last_est.s;
        d = some k.last_est.d;
        br = some k.cuts;
        ba = some k.adds;
      });
  di = some (or_else k.delpre "");
}
