-- ===== src/Event/Decision.antt =====
-- packages/keri/src/core/kever-decisions.ts: the outcomes of event evaluation. The messages and
-- contexts, which are diagnostics, are left out.
use keri_ts.Prelude.{ℕ, Bool, Option, List, String}
use keri_ts.Event.{Serder, Siger, SourceSeal, FirstSeenReplayCouple, KeyStateRecord}

pub data EscrowKind : Type 0 where
  ooo partial_sigs partial_wigs partial_dels : EscrowKind
  delegables duplicitous misfit query_not_found : EscrowKind

pub data DuplicateKind : Type 0 where
  same_said late_attachments : DuplicateKind

pub data RejectKind : Type 0 where
  invalid_pre invalid_ilk invalid_sn invalid_prior_digest : RejectKind
  invalid_threshold invalid_witness_list invalid_witness_threshold : RejectKind
  nontransferable_violation est_only_violation invalid_recovery : RejectKind
  delegation_policy_violation invalid_delegation unsupported stale : RejectKind

-- The cues that evaluation emits.
pub data AgentCue : Type 0 where
  remote_membered_sig : Serder → ℕ → AgentCue
  -- the queried prefix, sequence number (hexadecimal text or number) and digest
  query_event : Option String → Option String → AgentCue
  query_delegator : String → Option SourceSeal → AgentCue
  receipt_cue notice_cue witness_cue : Serder → AgentCue
  key_state_saved : KeyStateRecord → AgentCue
  -- the first-seen ordinal that was given, and the replayed one
  notice_bad_clone_fn : Serder → ℕ → FirstSeenReplayCouple → AgentCue

pub record KelEventState : Type 0 where
  pub serder : Serder
  pub sigers : List Siger
  pub wigers : List Siger
  pub wits : Option (List String)
  pub first : Bool
  pub frc : Option FirstSeenReplayCouple
  pub source_seal : Option SourceSeal
  pub local : Bool

pub record VerifiedAttachments : Type 0 where
  pub sigers : List Siger
  pub wigers : List Siger
  pub wits : List String
  pub delpre : Option String
  pub source_seal : Option SourceSeal
  pub cues : List AgentCue

pub data Mode : Type 0 where
  create update : Mode

pub data AcceptKind : Type 0 where
  inception_kind update_kind recovery_kind : AcceptKind

pub record KeverTransition : Type 0 where
  pub mode : Mode
  pub accept_kind : AcceptKind
  pub pre : String
  pub said : String
  pub sn : ℕ
  pub state : KeyStateRecord
  pub log : KelEventState

-- The sequence number is missing where the source writes -1.
pub record EscrowInstruction : Type 0 where
  pub escrow : EscrowKind
  pub pre : String
  pub said : String
  pub sn : Option ℕ
  pub log : KelEventState

pub data AttachmentDecision : Type 0 where
  attachment_verified : VerifiedAttachments → AttachmentDecision
  attachment_escrow : EscrowKind → EscrowInstruction → List AgentCue → AttachmentDecision
  attachment_reject : RejectKind → AttachmentDecision

pub data KeverDecision : Type 0 where
  kever_accept : KeverTransition → List AgentCue → KeverDecision
  kever_duplicate : DuplicateKind → Option KelEventState → KeverDecision
  kever_escrow : EscrowKind → EscrowInstruction → List AgentCue → KeverDecision
  kever_reject : RejectKind → KeverDecision
