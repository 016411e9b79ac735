-- ===== src/Kevery/Apply.antt =====
-- packages/keri/src/core/eventing.ts: `applyDecision`, which writes the outcome of a decision.
-- A decision to escrow is in `Kevery.Escrow`.
use keri_ts.Prelude.{
  Bool, false, not, ◌&&◌, Option, none, some, List, [], ◌∷◌, ◌++◌, String, if◌then◌else◌, or_else,
  truthy,
}
use keri_ts.Prelude.Sets.{string_eq, has, add}
use keri_ts.Prelude.Maps.{dg_key_eq, lookup, pin, rem}
use keri_ts.Prelude.Result.{Result, ok, ◌>>=◌}
use keri_ts.Event.{Serder}
use keri_ts.Event.Decision.{
  AgentCue, receipt_cue, notice_cue, witness_cue, key_state_saved, create, update, KeverTransition,
  KeverDecision, kever_accept, kever_duplicate, kever_escrow, kever_reject,
}
use keri_ts.Kever.{Primitives, Thrown, Kever, HabitatRecord, Baser}
use keri_ts.Kever.Load.{state_of}
use keri_ts.Kever.Store.{Step, locally_witnessed}
use keri_ts.Kever.Update.{apply_transition}
use keri_ts.Kever.Log.{LoggedEvent, log_event}
use keri_ts.Kevery.Escrow.{persist_escrow_instruction}
use keri_ts.Kevery.Repair.{repair_anchored_seals}

-- `applyFirstSeenState`: `undefined` where no ordinal was given.
unfoldable pub apply_first_seen_state : KeverTransition → LoggedEvent → KeverTransition
apply_first_seen_state transition logged = record transition {
  state = record transition.state {
    dt = some logged.dater;
    f = elim logged.fn [ none ↦ transition.state.f | some fn ↦ some fn ];
  };
}

-- The live state that logs the event: the known one, unless the event creates it.
unfoldable pub logging_kever : Primitives → KeverTransition → Option Kever → Result Thrown Kever
unfolding apply_transition
logging_kever prim transition none = apply_transition prim transition
logging_kever prim transition (some k) = elim transition.mode [
  | create ↦ apply_transition prim transition
  | update ↦ ok k
]

abbrev pub is_group : Option HabitatRecord → Bool
is_group none = false
is_group (some habord) = truthy habord.mid

-- The local identifiers learn a group that is stored.
abbrev pub learn_group : String → Baser → Baser
learn_group pre db =
    if is_group (lookup pre db.habs)
    then record db { prefixes = add pre db.prefixes; groups = add pre db.groups }
    else db

abbrev pub when_cue : Bool → AgentCue → List AgentCue
when_cue test cue = if test then cue ∷ [] else []

-- `emitAcceptanceCues`
unfoldable pub acceptance_cues : Kever → Serder → Bool → Baser → List AgentCue
unfolding state_of locally_witnessed
acceptance_cues k serder local db =
    (if not (has k.pre db.prefixes)
      then receipt_cue serder ∷ []
      else when_cue (not local) (notice_cue serder))
    ++ when_cue (local && locally_witnessed db k.wits) (witness_cue serder)
    ++ key_state_saved (state_of k) ∷ []

-- The cues that `Kevery` pushes on its own deck, and those that the kever pushes on the deck that it
-- was made with, which is the same deck for a kever that this `Kevery` created, and its own for one
-- that was loaded from the tables.
pub record Pushed : Type 0 where
  pub cues : List AgentCue
  pub notices : List AgentCue

-- What is written once the live state is known.
unfoldable pub pin_accepted : KeverTransition → Kever → Baser → Baser
pin_accepted transition k db = learn_group k.pre (record db {
  states = pin transition.pre transition.state db.states;
  kevers = pin transition.pre k db.kevers;
  udes = rem (transition.pre, transition.said) db.udes;
})

unfoldable pub finish_accept :
    Primitives → KeverTransition → List AgentCue → LoggedEvent × Baser → Step Pushed
unfolding apply_transition apply_first_seen_state pin_accepted acceptance_cues repair_anchored_seals
finish_accept prim transition cues (logged, db) =
    let seen = apply_first_seen_state transition logged in
    apply_transition prim seen >>= λ k.
    repair_anchored_seals prim transition.log.serder (pin_accepted seen k db) >>= λ repaired. ok (
      record {
        cues =
            cues
            ++ acceptance_cues k transition.log.serder transition.log.local
                (pin_accepted seen k db);
        notices = logged.notices;
      },
      repaired.1,
    )

unfoldable pub apply_accept : Primitives → KeverTransition → List AgentCue → Baser → Step Pushed
unfolding logging_kever log_event finish_accept
apply_accept prim transition cues db =
    logging_kever prim transition (lookup transition.pre db.kevers) >>= λ k.
    log_event prim k transition.log db >>= λ logged. finish_accept prim transition cues logged

abbrev pub pushed : List AgentCue → Baser → Step Pushed
pushed cues db = ok (record { cues = cues; notices = [] }, db)

unfoldable pub apply_decision : Primitives → KeverDecision → Baser → Step Pushed
unfolding apply_accept log_event persist_escrow_instruction
apply_decision prim (kever_accept transition cues) db = apply_accept prim transition cues db
apply_decision prim (kever_duplicate kind none) db = pushed [] db
apply_decision prim (kever_duplicate kind (some log)) db =
    elim (lookup (or_else log.serder.pre "") db.kevers) [
      | none ↦ pushed [] db
      | some k ↦ log_event prim k log db >>= λ logged.
          ok (record { cues = []; notices = logged.0.notices }, logged.1)
    ]
apply_decision prim (kever_escrow reason instruction cues) db =
    persist_escrow_instruction prim instruction db >>= λ r. pushed cues r.1
apply_decision prim (kever_reject code) db = pushed [] db
