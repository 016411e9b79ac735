-- ===== src/Event.antt =====
-- The events, attachments and records that the key-event state machine works on: the getters of
-- `SerderKERI` (packages/cesr/src/serder/serder.ts), `KeyStateRecord`
-- (packages/keri/src/core/records.ts), and the result types of
-- packages/keri/src/core/kever-decisions.ts in the child module.
-- A key, a digest and an identifier is its qb64 text; bytes are numbers.
pub mod Decision
use keri_ts.Prelude.{
  ℕ, ◌≡◌, ◌↔◌, ap, Bool, true, ◌&&◌, Option, none, List, String, str_eq, eq_iff, ◌==◌, ==_iff,
  arith,
}
use keri_ts.Prelude.Sets.{Eq, nat_eq, string_eq}
use keri_ts.Prelude.Equality.{same_list, same_list_iff, same_option, same_option_iff}
use keri_ts.Threshold.Tholder.{Tholder, Sith}

abbrev pub Bytes : Type 0
Bytes = List ℕ

-- An event seal, in the texts of its parts: `i`, `s` in hexadecimal, `d`.
pub record EventSeal : Type 0 where
  pub i : String
  pub s : String
  pub d : String

-- What the getters of a serder return. A missing field is `none`. The getter `eventSeals` throws where
-- an item of the `a` list is no known seal: an event of this type is one whose items are all known.
pub record Serder : Type 0 where
  pub raw : Bytes
  pub version : ℕ × ℕ
  pub ilk : Option String
  pub pre : Option String
  pub said : Option String
  pub snh : Option String
  pub sn : Option ℕ
  pub prior : Option String
  pub delpre : Option String
  pub tholder : Option Tholder
  pub verfers : List String
  pub ntholder : Option Tholder
  pub ndigers : List String
  pub bner : Option ℕ
  pub backs : List String
  pub cuts : List String
  pub adds : List String
  pub traits : List String
  -- the number of items of the raw `a` list, and those of them that are event seals
  pub seals : ℕ
  pub event_seals : List EventSeal
  -- `i` and `d` of those items of the raw `a` list that have both as texts
  pub anchors : List (String × String)

-- An indexed signature, with the verifier it was checked against, once it was.
pub record Siger : Type 0 where
  pub code : String
  pub raw : Bytes
  pub index : ℕ
  pub ondex : Option ℕ
  pub verfer : Option String

-- `SealSource` or `SealEvent`: the ordinal and the digest of the sealing event.
pub record SourceSeal : Type 0 where
  pub s : ℕ
  pub d : String

-- `FirstSeenReplayCouple`
pub record FirstSeenReplayCouple : Type 0 where
  pub firner : ℕ
  pub dater : String

-- `StateEERecord`: the latest establishment event.
pub record StateEeRecord : Type 0 where
  pub s : Option ℕ
  pub d : Option String
  pub br : Option (List String)
  pub ba : Option (List String)

-- Any field may be missing. The hexadecimal texts of `s`, `f`, `bt` and `ee.s` stand as the numbers
-- that they print.
pub record KeyStateRecord : Type 0 where
  pub vn : List ℕ
  pub i : Option String
  pub s : Option ℕ
  pub p : Option String
  pub d : Option String
  pub f : Option ℕ
  pub dt : Option String
  pub et : Option String
  pub kt : Option Sith
  pub k : Option (List String)
  pub nt : Option Sith
  pub n : Option (List String)
  pub bt : Option ℕ
  pub b : Option (List String)
  pub c : Option (List String)
  pub ee : Option StateEeRecord
  pub di : Option String

-- `LastEstLoc`
pub record LastEstLoc : Type 0 where
  pub s : ℕ
  pub d : String

-- `KeverEventInit`, without the database and the cue queue
pub record KeverEventInit : Type 0 where
  pub serder : Serder
  pub sigers : List Siger
  pub wigers : List Siger
  pub frcs : List FirstSeenReplayCouple
  pub sscs : List SourceSeal
  pub ssts : List SourceSeal
  pub eager : Bool
  pub local : Bool
  pub check : Bool

abbrev pub same_siger : Siger → Siger → Bool
same_siger a b =
    str_eq a.code b.code
    && same_list a.raw b.raw
    && a.index == b.index
    && same_option a.ondex b.ondex
    && same_option a.verfer b.verfer

pub same_siger_iff : (a b : Siger) → (same_siger a b ≡ true) ↔ (a ≡ b)
same_siger_iff a b = (
  λ h. cc (
    (eq_iff a.code b.code).0 (ground (arith, h)),
    (same_list_iff a.raw b.raw).0 (ground (arith, h)),
    (==_iff a.index b.index).0 (ground (arith, h)),
    (same_option_iff a.ondex b.ondex).0 (ground (arith, h)),
    (same_option_iff a.verfer b.verfer).0 (ground (arith, h)),
  ),
  λ h. ground (
    arith,
    (eq_iff a.code b.code).1 (ap (λ (x : Siger). x.code) h),
    (same_list_iff a.raw b.raw).1 (ap (λ (x : Siger). x.raw) h),
    (==_iff a.index b.index).1 (ap (λ (x : Siger). x.index) h),
    (same_option_iff a.ondex b.ondex).1 (ap (λ (x : Siger). x.ondex) h),
    (same_option_iff a.verfer b.verfer).1 (ap (λ (x : Siger). x.verfer) h),
  ),
)

instance abbrev pub siger_eq : Eq Siger
siger_eq = record { beq = same_siger; beq_iff = same_siger_iff }

-- What the qb64 text of a signature keeps.
abbrev pub unverified : Siger → Siger
unverified siger = record siger { verfer = none }
