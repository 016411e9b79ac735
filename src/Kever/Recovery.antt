-- ===== src/Kever/Recovery.antt =====
-- packages/keri/src/core/kever.ts: `validateDelegatedRecovery`, which climbs the two chains of
-- delegating events, of the candidate and of the event it would supersede, until one rule decides.
-- The loop has no bound in the source but the set of visited pairs: here it runs on fuel, one more
-- than there are pairs. The proofs are in the child modules.
pub mod Superseding
pub mod Visited
pub mod Bounded
use keri_ts.Prelude.{
  ℕ, zero, suc, Bool, ◌&&◌, ◌||◌, Option, none, some, List, [], ◌∷◌, String, ltb, ◌==◌,
  if◌then◌else◌, or_else, equals, same_text, length, ◌+◌, ◌*◌, ◌≡◌, ◌↔◌, true, eq_iff, arith,
}
use keri_ts.Prelude.Sets.{Eq, string_eq, has}
use keri_ts.Prelude.Result.{ok, err}
use keri_ts.Event.Decision.{
  AttachmentDecision, attachment_reject, invalid_delegation, partial_dels, query_delegator,
}
use keri_ts.Kever.{Kever, Baser, out_of_fuel}
use keri_ts.Kever.Store.{Step}
use keri_ts.Kever.Inputs.{AttachmentValidationInput, make_attachment_escrow_decision}
use keri_ts.Kever.Seals.{DelegatingEventLookup, delegator_pre_for_event}
use keri_ts.Kever.Seals.Fetch.{fetch_current, fetch_original}

-- `${currentDelpre}:${candidateBoss.serder.said}:${originalBoss.serder.said}`: no part holds a colon.
abbrev pub CycleKey : Type 0
CycleKey = String × String × String

abbrev pub same_cycle : CycleKey → CycleKey → Bool
same_cycle a b = string_eq.beq a.0 b.0 && string_eq.beq a.1 b.1 && string_eq.beq a.2 b.2

pub same_cycle_iff : (a b : CycleKey) → (same_cycle a b ≡ true) ↔ (a ≡ b)
same_cycle_iff a b = (
  λ h. cc (
    (eq_iff a.0 b.0).0 (ground (arith, h)),
    (eq_iff a.1 b.1).0 (ground (arith, h)),
    (eq_iff a.2 b.2).0 (ground (arith, h)),
  ),
  λ h.
      ground
        (arith, (eq_iff a.0 b.0).1 (cc h), (eq_iff a.1 b.1).1 (cc h), (eq_iff a.2 b.2).1 (cc h)),
)

instance abbrev pub cycle_key_eq : Eq CycleKey
cycle_key_eq = record { beq = same_cycle; beq_iff = same_cycle_iff }

unfoldable pub cycle_key : String → DelegatingEventLookup → DelegatingEventLookup → CycleKey
cycle_key delpre candidate original =
    (delpre, or_else candidate.serder.said "", or_else original.serder.said "")

-- What one turn of the loop finds before it climbs.
pub data Verdict : Type 0 where
  supersedes : Verdict
  refused : Verdict
  climb : String → Verdict

-- A delegating rotation over a delegating interaction.
unfoldable pub rotates_over : DelegatingEventLookup → DelegatingEventLookup → Bool
rotates_over candidate original =
    (equals candidate.serder.ilk "rot" || equals candidate.serder.ilk "drt")
    && equals original.serder.ilk "ixn"

-- The delegators of the two delegating events, which must be one.
unfoldable pub upstream : Option String → Option String → Verdict
upstream none original = refused
upstream (some candidate) none = refused
upstream (some candidate) (some original) =
    if string_eq.beq candidate original then climb candidate else refused

-- The rules in order, on the sequence numbers of the two delegating events.
unfoldable pub compare_bosses :
    Baser → DelegatingEventLookup → DelegatingEventLookup → ℕ → ℕ → Verdict
unfolding rotates_over upstream
compare_bosses db candidate original candidate_sn original_sn =
    if ltb original_sn candidate_sn
    then supersedes
    else if candidate_sn == original_sn && rotates_over candidate original
    then supersedes
    else if same_text candidate.serder.said original.serder.said
    then (if ltb original.seal_index candidate.seal_index then supersedes else refused)
    else upstream (delegator_pre_for_event db candidate.serder)
        (delegator_pre_for_event db original.serder)

unfoldable pub recovery_verdict :
    Baser → List CycleKey → String → DelegatingEventLookup → DelegatingEventLookup → Verdict
unfolding compare_bosses cycle_key
recovery_verdict db visited delpre candidate original = elim candidate.serder.sn [
  | none ↦ refused
  | some candidate_sn ↦ elim original.serder.sn [
    | none ↦ refused
    | some original_sn ↦
        if has (cycle_key delpre candidate original) visited
        then refused
        else compare_bosses db candidate original candidate_sn original_sn
  ]
]

-- The escrow of a chain that is not all known yet.
abbrev pub chain_missing :
    Kever → AttachmentValidationInput → String → Baser → Step (Option AttachmentDecision)
chain_missing k input delpre db = ok (
  some (make_attachment_escrow_decision k partial_dels input (query_delegator delpre none ∷ [])),
  db,
)

-- The next turn of the loop, from the two delegating events that it compares.
abbrev pub NextTurn : Type 0
NextTurn =
    Baser
    → String
    → DelegatingEventLookup
    → DelegatingEventLookup
    → Step (Option AttachmentDecision)

unfoldable pub climb_original :
    NextTurn
    → Kever
    → AttachmentValidationInput
    → String
    → DelegatingEventLookup
    → Option DelegatingEventLookup × Baser
    → Step (Option AttachmentDecision)
climb_original turn k input next candidate (none, db) = chain_missing k input next db
climb_original turn k input next candidate (some original, db) = turn db next candidate original

unfoldable pub climb_candidate :
    NextTurn
    → Kever
    → AttachmentValidationInput
    → String
    → DelegatingEventLookup
    → Option DelegatingEventLookup × Baser
    → Step (Option AttachmentDecision)
unfolding climb_original
climb_candidate turn k input next original (none, db) = chain_missing k input next db
climb_candidate turn k input next original (some candidate, db) =
    climb_original turn k input next candidate (fetch_original db next original.serder input.eager)

unfoldable pub after_verdict :
    NextTurn
    → Kever
    → AttachmentValidationInput
    → Baser
    → DelegatingEventLookup
    → DelegatingEventLookup
    → Verdict
    → Step (Option AttachmentDecision)
unfolding climb_candidate
after_verdict turn k input db candidate original supersedes = ok (none, db)
after_verdict turn k input db candidate original refused =
    ok (some (attachment_reject invalid_delegation), db)
after_verdict turn k input db candidate original (climb next) =
    climb_candidate turn k input next original
      (fetch_current db next candidate.serder none input.eager)

-- `none` where the candidate supersedes.
unfoldable pub validate_delegated_recovery :
    ℕ
    → Kever
    → AttachmentValidationInput
    → Baser
    → List CycleKey
    → String
    → DelegatingEventLookup
    → DelegatingEventLookup
    → Step (Option AttachmentDecision)
unfolding recovery_verdict after_verdict
validate_delegated_recovery zero k input db visited delpre candidate original = err out_of_fuel
validate_delegated_recovery (suc fuel) k input db visited delpre candidate original =
    after_verdict
      (λ db' next candidate' original'.
        validate_delegated_recovery fuel k input db' (cycle_key delpre candidate original ∷ visited)
          next candidate' original')
      k input db candidate original (recovery_verdict db visited delpre candidate original)

-- Pairs of delegating events under a delegator: no more are visited.
unfoldable pub recovery_fuel : Baser → ℕ
recovery_fuel db =
    suc ((1 + length db.evts + length db.states) * ((1 + length db.evts) * (1 + length db.evts)))
