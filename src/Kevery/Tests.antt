-- ===== src/Kevery/Tests.antt =====
-- The theorems on event processing at concrete inputs: a first inception, and an event of an unknown
-- prefix, which is escrowed and read back.
use keri_ts.Prelude.{
  ◌⊎◌, ℕ, ◌≡◌, ◌≢◌, refl, Bool, true, false, Option, none, some, List, [], ◌∷◌, String,
}
use keri_ts.Prelude.Sets.{string_eq}
use keri_ts.Prelude.Maps.{dg_key_eq, lookup, pin}
use keri_ts.Prelude.Result.{ok, err}
use keri_ts.Tables.Contiguous.{IsContiguous}
use keri_ts.Event.{Serder}
use keri_ts.Event.Decision.{ooo, EscrowInstruction, KeverDecision, kever_accept}
use keri_ts.Kever.{Thrown, Kever, Baser}
use keri_ts.Kever.Store.{Step}
use keri_ts.Kever.Store.Quiet.{IsQuiet}
use keri_ts.Kever.About.{IsAbout}
use keri_ts.Kever.Tests.{prim, icp, rot, signature, empty_db, icp_transition}
use keri_ts.Kevery.{KeverEventEnvelope, decide_event}
use keri_ts.Kevery.Quiet.{decide_event-IsQuiet}
use keri_ts.Kevery.About.{decide_event-IsAbout}
use keri_ts.Kevery.Apply.{Pushed}
use keri_ts.Kevery.FirstSeen.{IsFirstSeen, process_event-Effect, process_event-IsContiguous}
use keri_ts.Kevery.Durable.{IsDurable, process_event-IsDurable}
use keri_ts.Kevery.Escrow.{persist_escrow_instruction}
use keri_ts.Kevery.Replay.{process_event, rehydrate_escrow_envelope, replay_escrow_entry}
use keri_ts.Kevery.Released.{IsReplayed, replay_escrow_entry-IsReplayed}
use keri_ts.Kevery.Replayed.{IsNew, envelope_of, persist-rehydrate}

abbrev envelope : KeverEventEnvelope
envelope = record {
  serder = icp;
  sigers = signature ∷ [];
  wigers = [];
  frcs = [];
  sscs = [];
  ssts = [];
  local = none;
  eager = false;
}

abbrev tables_after : {A : Type 0} → Step A → Baser
tables_after (ok r) = r.1
tables_after (err thrown) = empty_db

abbrev pushed_by : Step (KeverDecision × Pushed) → Pushed
pushed_by (ok r) = r.0.1
pushed_by (err thrown) = record { cues = []; notices = [] }

abbrev run : Step (KeverDecision × Pushed)
unfolding process_event
run = process_event prim false envelope empty_db

decides : decide_event prim false envelope empty_db ≡ ok (kever_accept icp_transition [], empty_db)
unfolding decide_event keri_ts.Kever.Inception.evaluate_inception
    keri_ts.Prelude.Sets.has_unique_entries keri_ts.Kever.Load.need_text keri_ts.Kever.Load.need
    keri_ts.Kever.Load.load_date keri_ts.Kever.Load.load_threshold
    keri_ts.Threshold.Tholder.normalize_threshold_input keri_ts.Prelude.Text.trim
    keri_ts.Prelude.Text.parse_digits keri_ts.Kever.number_primitive_from_bigint
    keri_ts.Kever.Store.locally_membered keri_ts.Kever.Signatures.verify_indexed_signatures
    keri_ts.Prelude.Sort.sort_by keri_ts.Kever.Store.locally_owned keri_ts.Kever.Store.is_single
    lookup keri_ts.Kever.Store.locally_witnessed keri_ts.Kever.Store.locally_delegated
    keri_ts.Threshold.Tholder.satisfy keri_ts.Kever.Attachments.is_rotation
decides = refl

accepts :
    process_event prim false envelope empty_db
    ≡ ok ((kever_accept icp_transition [], pushed_by run), tables_after run)
unfolding process_event lookup keri_ts.Prelude.Sets.has_unique_entries keri_ts.Kever.Load.need_text
    keri_ts.Kever.Load.need keri_ts.Kever.Load.load_date keri_ts.Kever.Load.load_threshold
    keri_ts.Threshold.Tholder.normalize_threshold_input keri_ts.Prelude.Text.trim
    keri_ts.Prelude.Text.parse_digits keri_ts.Kever.number_primitive_from_bigint
    keri_ts.Kever.Store.locally_membered keri_ts.Prelude.Sort.sort_by
    keri_ts.Kever.Store.locally_owned keri_ts.Kever.Store.is_single
    keri_ts.Kever.Store.locally_delegated keri_ts.Threshold.Tholder.satisfy
    keri_ts.Kever.Attachments.is_rotation
accepts = refl

decide_event-IsQuiet_example : IsQuiet empty_db empty_db
decide_event-IsQuiet_example =
    decide_event-IsQuiet prim false envelope empty_db empty_db (kever_accept icp_transition [])
      decides

decide_event-IsAbout_example : IsAbout icp (kever_accept icp_transition [])
decide_event-IsAbout_example =
    decide_event-IsAbout prim false envelope empty_db empty_db (kever_accept icp_transition [])
      decides

process_event-Effect_example : IsFirstSeen icp_transition empty_db (tables_after run)
process_event-Effect_example =
    process_event-Effect prim false envelope empty_db (tables_after run)
      (kever_accept icp_transition []) (pushed_by run) accepts

empty-IsContiguous : IsContiguous empty_db.fels
unfolding keri_ts.Tables.Contiguous.ordinals keri_ts.Tables.Contiguous.count_from
empty-IsContiguous pre = refl

process_event-IsContiguous_example : IsContiguous (tables_after run).fels
process_event-IsContiguous_example =
    process_event-IsContiguous prim false envelope empty_db (tables_after run)
      (kever_accept icp_transition []) (pushed_by run) accepts empty-IsContiguous

nothing_stored :
    (s : Serder) → lookup (icp_transition.pre, icp_transition.said) empty_db.evts ≡ some s → s ≡ icp
unfolding lookup
nothing_stored s h = absurd (cc h)

process_event-IsDurable_example : IsDurable prim icp icp_transition (tables_after run)
process_event-IsDurable_example =
    process_event-IsDurable prim false envelope empty_db (tables_after run) icp_transition []
      (pushed_by run) accepts nothing_stored

abbrev waiting : EscrowInstruction
waiting = record {
  escrow = ooo;
  pre = "A";
  said = "E1";
  sn = some 1;
  log = record {
    serder = rot;
    sigers = signature ∷ signature ∷ [];
    wigers = [];
    wits = none;
    first = false;
    frc = none;
    source_seal = none;
    local = false;
  };
}

rot-IsNew : IsNew ("A", "E1") empty_db
unfolding lookup
rot-IsNew = record { evts = refl; sigs = refl; wigs = refl; udes = refl; aess = refl; esrs = refl }

escrows :
    persist_escrow_instruction prim waiting empty_db
    ≡ ok (tt, tables_after (persist_escrow_instruction prim waiting empty_db))
unfolding persist_escrow_instruction
escrows = refl

persist-rehydrate_example :
    rehydrate_escrow_envelope prim ooo "A" "E1"
      (tables_after (persist_escrow_instruction prim waiting empty_db))
    ≡ ok (
      some (envelope_of ooo waiting.log),
      tables_after (persist_escrow_instruction prim waiting empty_db),
    )
persist-rehydrate_example =
    persist-rehydrate prim waiting "A" "E1" empty_db
      (tables_after (persist_escrow_instruction prim waiting empty_db)) refl refl rot-IsNew refl
      refl escrows

abbrev held : Baser
unfolding persist_escrow_instruction
held = tables_after (persist_escrow_instruction prim waiting empty_db)

-- The prefix is still unknown, and the event stays out of order.
replays : replay_escrow_entry prim false ooo "A" (some 1) "E1" held ≡ ok (none, held)
unfolding persist_escrow_instruction replay_escrow_entry lookup pin
replays = refl

replay_escrow_entry-IsReplayed_example : IsReplayed prim false ooo "A" (some 1) "E1" held held
replay_escrow_entry-IsReplayed_example =
    replay_escrow_entry-IsReplayed prim false ooo "A" (some 1) "E1" held held none replays
