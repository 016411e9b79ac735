-- ===== src/Kever/Inputs.antt =====
-- packages/keri/src/core/kever.ts: what the attachment validation is given, and the decisions it
-- makes from it, `makeAttachmentEscrowDecision` and `fromAttachmentDecision`.
use keri_ts.Prelude.{ℕ, Bool, false, Option, none, some, List, String, or_else, or_maybe, first}
use keri_ts.Prelude.Result.{ok}
use keri_ts.Threshold.Tholder.{Tholder}
use keri_ts.Event.{Serder, Siger, SourceSeal, KeverEventInit}
use keri_ts.Event.Decision.{
  EscrowKind, unsupported, AgentCue, AttachmentDecision, attachment_verified, attachment_escrow,
  attachment_reject, KeverDecision, kever_escrow, kever_reject,
}
use keri_ts.Kever.{Kever, Baser}
use keri_ts.Kever.Store.{Step}

-- `AttachmentValidationInput`
pub record AttachmentValidationInput : Type 0 where
  pub serder : Serder
  pub sigers : List Siger
  pub wigers : List Siger
  pub verfers : List String
  pub tholder : Option Tholder
  pub wits : List String
  pub toader : ℕ
  pub delpre : Option String
  pub source_seal : Option SourceSeal
  pub local : Bool
  pub eager : Bool
  pub is_establishment : Bool

unfoldable pub make_attachment_escrow_decision :
    Kever → EscrowKind → AttachmentValidationInput → List AgentCue → AttachmentDecision
make_attachment_escrow_decision k escrow input cues =
    attachment_escrow escrow
      (record {
        escrow = escrow;
        pre = or_else input.serder.pre k.pre;
        said = or_else input.serder.said "";
        sn = input.serder.sn;
        log = record {
          serder = input.serder;
          sigers = input.sigers;
          wigers = input.wigers;
          wits = some input.wits;
          first = false;
          frc = none;
          source_seal = input.source_seal;
          local = input.local;
        };
      })
      cues

unfoldable pub from_attachment_decision : AttachmentDecision → KeverDecision
from_attachment_decision (attachment_verified _) = kever_reject unsupported
from_attachment_decision (attachment_escrow reason instruction cues) =
    kever_escrow reason instruction cues
from_attachment_decision (attachment_reject code) = kever_reject code

-- `normalizeSourceSeal`
unfoldable pub normalize_source_seal : List SourceSeal → List SourceSeal → Option SourceSeal
normalize_source_seal sscs ssts = or_maybe (first ssts) (first sscs)

-- `makeEscrowDecision`
unfoldable pub make_escrow_decision :
    Kever → EscrowKind → KeverEventInit → List AgentCue → KeverDecision
make_escrow_decision k escrow init cues =
    kever_escrow escrow
      (record {
        escrow = escrow;
        pre = or_else init.serder.pre k.pre;
        said = or_else init.serder.said "";
        sn = init.serder.sn;
        log = record {
          serder = init.serder;
          sigers = init.sigers;
          wigers = init.wigers;
          wits = none;
          first = false;
          frc = first init.frcs;
          source_seal = normalize_source_seal init.sscs init.ssts;
          local = init.local;
        };
      })
      cues

-- A decision that leaves the tables as they are.
abbrev pub decided : AttachmentDecision → Baser → Step AttachmentDecision
decided decision db = ok (decision, db)
