-- ===== src/Kever/Load/Throws.antt =====
-- What the load of a stored state throws: an error of the source, and never the model's own.
use keri_ts.Prelude.{
  ℕ, ◌≢◌, inl, inr, Bool, true, false, Option, none, some, [], String, every, or_else, Option-cases,
  past, truthy, arith,
}
use keri_ts.Prelude.Sets.{string_eq}
use keri_ts.Prelude.Maps.{lookup, pin}
use keri_ts.Prelude.Result.{Result, ok, err, guard, ◌>>=◌, Result-cases}
use keri_ts.Threshold.Tholder.{Sith, sith, too_wide, normalize_threshold_input}
use keri_ts.Event.{Serder, KeyStateRecord}
use keri_ts.Kever.{
  Primitives, Thrown, out_of_fuel, invalid_prefix, invalid_verfer, invalid_diger, Kever, Baser,
  number_primitive_from_bigint,
}
use keri_ts.Kever.Load.{need_text, need, load_date, load_threshold, load_state}
use keri_ts.Kever.Store.{get_evt_serder, reload_event, from_state, get_kever}

abbrev Real : {A : Type 0} → Result Thrown A → Type 0
Real m = m ≢ err out_of_fuel

then-Real :
    {A B : Type 0} (m : Result Thrown A) (f : A → Result Thrown B)
    → Real m
    → ((a : A) → Real (f a))
    → Real (m >>= f)
then-Real (ok a) f m f_real h = f_real a h
then-Real (err thrown) f m f_real h = m (cc h)

text-Real : (o : Option String) → Real (need_text o)
unfolding need_text
text-Real none h = cc h
text-Real (some s) h = past (truthy (some s)) h (λ e. absurd (cc e)) λ empty e. absurd (cc e)

number-Real : (o : Option ℕ) → Real (need o)
unfolding need
number-Real none h = cc h
number-Real (some n) h = cc h

date-Real : (o : Option String) → Real (load_date o)
unfolding load_date
date-Real none h = cc h
date-Real (some s) h = cc h

guard-Real : (test : Bool) (thrown : Thrown) → thrown ≢ out_of_fuel → Real (guard test thrown)
guard-Real true thrown real h = cc h
guard-Real false thrown real h = real (cc h)

threshold-Real : (prim : Primitives) (form : Option Sith) → Real (load_threshold prim form)
unfolding load_threshold
threshold-Real prim none h = cc h
threshold-Real prim (some form) h =
    elim (Result-cases (normalize_threshold_input prim.parse_json (sith form))) [
      | inl (t, e) ↦ absurd (ground (arith, e, h))
      | inr (e, thrown) ↦ absurd (ground (arith, thrown, h))
    ]

width-Real : (value : ℕ) → Real (number_primitive_from_bigint value)
unfolding number_primitive_from_bigint
width-Real value h = past (too_wide value) h (λ e. absurd (cc e)) λ fits e. absurd (cc e)

load_state-Real :
    (prim : Primitives) (state : KeyStateRecord) (serder : Serder)
    → Real (load_state prim state serder)
unfolding load_state
load_state-Real prim state serder = then-Real (need_text state.i) _ (text-Real state.i) λ i.
    then-Real (need_text state.d) _ (text-Real state.d) λ d.
      then-Real (need state.s) _ (number-Real state.s) λ s.
        then-Real (need state.f) _ (number-Real state.f) λ f.
          then-Real (need_text state.dt) _ (text-Real state.dt) λ dt.
            then-Real (need_text state.et) _ (text-Real state.et) λ et.
              then-Real (guard (prim.is_prefix i) invalid_prefix) _
                (guard-Real (prim.is_prefix i) invalid_prefix cc)
                λ _. then-Real (load_date (prim.dater dt)) _ (date-Real (prim.dater dt)) λ dater.
                  then-Real (load_threshold prim state.kt) _ (threshold-Real prim state.kt)
                    λ tholder.
                      then-Real (load_threshold prim state.nt) _ (threshold-Real prim state.nt)
                        λ ntholder.
                          then-Real
                            (guard (every prim.is_verfer (or_else state.k [])) invalid_verfer) _
                            (guard-Real (every prim.is_verfer (or_else state.k [])) invalid_verfer
                              cc)
                            λ _.
                              then-Real
                                (guard (every prim.is_diger (or_else state.n [])) invalid_diger) _
                                (guard-Real (every prim.is_diger (or_else state.n [])) invalid_diger
                                  cc)
                                λ _.
                                  then-Real (number_primitive_from_bigint (or_else state.bt 0)) _
                                    (width-Real (or_else state.bt 0)) λ toader h. cc h

event-Real : (db : Baser) (i d : String) → Real (reload_event db i d)
unfolding reload_event
event-Real db i d h = elim (Option-cases (get_evt_serder db i d)) [
  | inl missing ↦ absurd (ground (arith, missing, h))
  | inr (serder, there) ↦ absurd (ground (arith, there, h))
]

state-Real :
    (prim : Primitives) (db : Baser) (state : KeyStateRecord) → Real (from_state prim db state)
unfolding from_state
state-Real prim db state = then-Real (need_text state.i) _ (text-Real state.i) λ i.
    then-Real (need_text state.d) _ (text-Real state.d) λ d.
      then-Real (reload_event db i d) _ (event-Real db i d)
        λ serder. load_state-Real prim state serder

pub get_kever-throws :
    (prim : Primitives) (db : Baser) (pre : String) → get_kever prim db pre ≢ err out_of_fuel
unfolding get_kever
get_kever-throws prim db pre h = elim (Option-cases (lookup pre db.kevers)) [
  | inr (current, here) ↦ absurd (ground (arith, here, h))
  | inl absent ↦ elim (Option-cases (lookup pre db.states)) [
    | inl unknown ↦ absurd (ground (arith, absent, unknown, h))
    | inr (state, known) ↦
        then-Real {B = Option Kever × Baser} (from_state prim db state)
          (λ kever. ok (some kever, record db { kevers = pin pre kever db.kevers }))
          (state-Real prim db state) (λ kever e. cc e) (ground (arith, absent, known, h))
  ]
]
