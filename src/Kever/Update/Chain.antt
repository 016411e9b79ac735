-- ===== src/Kever/Update/Chain.antt =====
-- The place in the log that an accepted event takes: the next one, or that of a recovery.
use keri_ts.Prelude.{
  ℕ, ◌<◌, sym, eq_iff, ◌+◌, ◌≤◌, ◌≡◌, refl, ◌∙◌, ap, ◌⊎◌, inl, inr, true, false, not, ◌&&◌, ◌||◌,
  Option, none, some, String, str_eq, ltb, leb, equals, equals-some, truthy, non_empty,
  non_empty-eq, or_else, past, Bool-cases, arith,
}
use keri_ts.Prelude.Result.{ok, >>=-cases}
use keri_ts.Event.{Serder}
use keri_ts.Kever.{Kever, Baser}
use keri_ts.Kever.Store.{get_evt_serder, get_last_before}
use keri_ts.Kever.Rotation.{
  compare_saids, prior_matches, recovery_prior, recovery_fault, kever_said, prior_fault,
}

-- The next event of the log, which names the current one as its prior.
pub record IsNext (k : Kever) (serder : Serder) (sn : ℕ) : Type 0 where
  pub next_sn : sn ≡ k.sn + 1
  pub prior : serder.prior ≡ some (kever_said k)

-- A recovery: it takes a number that is taken, no earlier than the latest establishment, and its
-- prior is the accepted event before that number. One that is not delegated is later than the latest
-- establishment, and follows an interaction.
pub record IsRecovery (k : Kever) (serder : Serder) (sn : ℕ) (db : Baser) : Type 0 where
  pub taken : sn ≤ k.sn
  pub after_est : k.last_est.s ≤ sn
  pub rotation : serder.ilk ≡ some "rot" → (k.last_est.s < sn) × (k.ilk ≡ "ixn")
  pub pdig : String
  pub last_before : get_last_before db.kels k.pre sn ≡ some pdig
  pub pserder : Serder
  pub stored : get_evt_serder db k.pre pdig ≡ some pserder
  pub prior : serder.prior ≡ some (or_else pserder.said "")

abbrev pub HasPlace : Kever → Serder → ℕ → Baser → Type 0
HasPlace k serder sn db = IsNext k serder sn ⊎ IsRecovery k serder sn db

compare-eq :
    (pserder : Serder) (prior : Option String)
    → compare_saids pserder prior ≡ ok true
    → prior ≡ some (or_else pserder.said "")
unfolding compare_saids
compare-eq pserder prior h =
    past (not (truthy prior) || not (truthy pserder.said)) h (λ e. absurd (cc e))
      λ there e. equals-some prior (or_else pserder.said "") (cc e)

matches-eq :
    (k : Kever) (serder : Serder) (found : Option Serder)
    → prior_matches k serder found ≡ ok none
    → (pserder : Serder) × (found ≡ some pserder) × (serder.prior ≡ some (or_else pserder.said ""))
unfolding prior_matches
matches-eq k serder none h = absurd (cc h)
matches-eq k serder (some pserder) h =
    >>=-cases (compare_saids pserder serder.prior) _ h λ same e done. elim (Bool-cases same) [
      | inl same' ↦ (pserder, refl, compare-eq pserder serder.prior (e ∙ ap ok same'))
      | inr differs ↦ absurd (ground (arith, differs, done))
    ]

recovery_prior-IsRecovery :
    (k : Kever) (serder : Serder) (sn : ℕ) (db : Baser) (found : Option String)
    → sn ≤ k.sn
    → k.last_est.s ≤ sn
    → (serder.ilk ≡ some "rot" → (k.last_est.s < sn) × (k.ilk ≡ "ixn"))
    → non_empty (get_last_before db.kels k.pre sn) ≡ found
    → recovery_prior k serder db found ≡ ok none
    → IsRecovery k serder sn db
unfolding recovery_prior
recovery_prior-IsRecovery k serder sn db none low high over e h = absurd (cc h)
recovery_prior-IsRecovery k serder sn db (some pdig) low high over e h =
    let (pserder, stored, prior) = matches-eq k serder (get_evt_serder db k.pre pdig) h in
    record {
      taken = low;
      after_est = high;
      rotation = over;
      pdig = pdig;
      last_before = non_empty-eq (get_last_before db.kels k.pre sn) pdig e;
      pserder = pserder;
      stored = stored;
      prior = prior;
    }

-- Of a rotation's two types, each bound on the number keeps it from passing the establishment.
after_est-le :
    (ilk : String) (sn est : ℕ)
    → (str_eq ilk "rot" || str_eq ilk "drt") ≡ true
    → (str_eq ilk "rot" && leb sn est || str_eq ilk "drt" && ltb sn est) ≡ false
    → est ≤ sn
after_est-le ilk sn est kind fresh = ground (arith, kind, fresh)

recovery_fault-IsRecovery :
    (k : Kever) (serder : Serder) (ilk : String) (sn : ℕ) (db : Baser)
    → or_else serder.ilk "rot" ≡ ilk
    → (str_eq ilk "rot" || str_eq ilk "drt") ≡ true
    → sn ≤ k.sn
    → recovery_fault k serder ilk sn db ≡ ok none
    → IsRecovery k serder sn db
unfolding recovery_fault
recovery_fault-IsRecovery k serder ilk sn db named kind low h =
    past (str_eq ilk "rot" && leb sn k.last_est.s || str_eq ilk "drt" && ltb sn k.last_est.s) h
      (λ e. absurd (cc e))
      λ fresh h1.
        past (str_eq ilk "rot" && not (str_eq k.ilk "ixn")) h1 (λ e. absurd (cc e))
          λ over h2.
            recovery_prior-IsRecovery k serder sn db (non_empty (get_last_before db.kels k.pre sn))
              low (after_est-le ilk sn k.last_est.s kind fresh)
              (λ plain.
                let rot : str_eq ilk "rot" ≡ true =
                  (eq_iff ilk "rot").1 (sym named ∙ ap (λ o. or_else o "rot") plain) in
                (ground (arith, fresh, rot), (eq_iff k.ilk "ixn").0 (ground (arith, over, rot))))
              refl h2

pub prior-IsNext :
    (k : Kever) (serder : Serder) (sn : ℕ)
    → leb sn k.sn ≡ false
    → sn ≤ k.sn + 1
    → equals serder.prior (kever_said k) ≡ true
    → IsNext k serder sn
prior-IsNext k serder sn later near same = record {
  next_sn = ground (arith, near, later);
  prior = equals-some serder.prior (kever_said k) same;
}

pub fault-HasPlace :
    (k : Kever) (serder : Serder) (ilk : String) (sn : ℕ) (db : Baser)
    → or_else serder.ilk "rot" ≡ ilk
    → (str_eq ilk "rot" || str_eq ilk "drt") ≡ true
    → sn ≤ k.sn + 1
    → prior_fault k serder ilk sn db ≡ ok none
    → HasPlace k serder sn db
unfolding prior_fault
fault-HasPlace k serder ilk sn db named kind near h = elim (Bool-cases (leb sn k.sn)) [
  | inl taken ↦ inr (
      recovery_fault-IsRecovery k serder ilk sn db named kind (ground (arith, taken))
        (ground (arith, taken, h)))
  | inr later ↦ inl (prior-IsNext k serder sn later near (ground (arith, later, h)))
]
