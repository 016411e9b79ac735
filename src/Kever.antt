-- ===== src/Kever.antt =====
-- packages/keri/src/core/kever.ts: the state of one accepted identifier, the tables that its
-- evaluation reads (packages/keri/src/db/basing.ts), and the primitives it calls.
-- Each child module models one group of methods, or proves what it does.
pub mod Load
pub mod Store
pub mod Signatures
pub mod Backers
pub mod Inputs
pub mod Inception
pub mod Seals
pub mod Recovery
pub mod Delegation
pub mod Attachments
pub mod Rotation
pub mod Update
pub mod Log
pub mod Quiet
pub mod About
pub mod Tests
use keri_ts.Prelude.{ℕ, Bool, Option, List, String, ◌%◌, ◌^◌, if◌then◌else◌, leb, none, some, false}
use keri_ts.Prelude.Maps.{Map, DgKey}
use keri_ts.Prelude.Result.{Result, ok, err}
use keri_ts.Prelude.Text.{Text}
use keri_ts.Threshold.Error.{ThresholdError}
use keri_ts.Threshold.Weighted.{WeightedThreshold}
use keri_ts.Threshold.Tholder.{Tholder, too_wide}
use keri_ts.Tables.{SetItem}
pub use keri_ts.Tables.{KelItem}
use keri_ts.Event.{Bytes, Serder, Siger, SourceSeal, KeyStateRecord, LastEstLoc}

-- The signature and digest checks, which the source takes from a package, with the clock, the JSON
-- reader and the reading of a qb64 text: whether `new Prefixer`, `new Verfer` and `new Diger` take
-- it, and the normal form of a date in `Dater`.
pub record Primitives : Type 0 where
  pub verify : String → Bytes → Bytes → Bool
  pub digest_matches : String → String → Bool
  pub is_prefix : String → Bool
  pub is_transferable : String → Bool
  pub is_verfer : String → Bool
  pub is_diger : String → Bool
  pub dater : String → Option String
  pub now : String
  pub parse_json : Text → Result ThresholdError WeightedThreshold

-- What the methods throw.
pub data Thrown : Type 0 where
  incomplete_state missing_event invalid_prefix invalid_verfer invalid_diger invalid_date : Thrown
  bad_threshold : ThresholdError → Thrown
  unsupported_number uncomparable_saids : Thrown
  -- `logEvent` and the escrow of an event without prefix, digest or number
  incomplete_log incomplete_escrow : Thrown
  -- The loop of the delegated recovery ran out of fuel: no throw of the source.
  out_of_fuel : Thrown

-- The live state of an identifier.
pub record Kever : Type 0 where
  pub version : ℕ × ℕ
  pub pre : String
  pub transferable : Bool
  pub sn : ℕ
  pub fn : ℕ
  pub dater : String
  pub serder : Serder
  pub ilk : String
  pub tholder : Option Tholder
  pub verfers : List String
  pub ndigers : List String
  pub ntholder : Option Tholder
  pub toader : ℕ
  pub wits : List String
  pub cuts : List String
  pub adds : List String
  pub est_only : Bool
  pub do_not_delegate : Bool
  pub last_est : LastEstLoc
  pub delegated : Bool
  pub delpre : Option String

-- A row of `habs.`, of which the member identifier counts.
pub record HabitatRecord : Type 0 where
  pub mid : Option String

-- The tables of the database that evaluation and event processing use, and its cache of live
-- states. A stored signature has lost the verifier it was checked against; a date is its ISO 8601
-- text; a row of `esrs.` is its `local` flag.
pub record Baser : Type 0 where
  pub evts : Map DgKey Serder
  pub dtss : Map DgKey String
  pub sigs : Map DgKey (List Siger)
  pub wigs : Map DgKey (List Siger)
  pub wits : Map DgKey (List String)
  pub esrs : Map DgKey Bool
  pub kels : List KelItem
  pub fels : List KelItem
  pub fons : Map DgKey ℕ
  pub aess : Map DgKey SourceSeal
  pub udes : Map DgKey SourceSeal
  pub ooes : List KelItem
  pub pses : List KelItem
  pub pwes : List KelItem
  pub pdes : List KelItem
  pub ldes : List KelItem
  pub delegables : List SetItem
  pub misfits : List SetItem
  pub qnfs : List SetItem
  pub states : Map String KeyStateRecord
  pub habs : Map String HabitatRecord
  pub prefixes : List String
  pub groups : List String
  pub kevers : Map String Kever

-- A 16-byte ordinal.
unfoldable pub encode_huge_ordinal : ℕ → ℕ
encode_huge_ordinal num = num % 2 ^ 128

-- `numberPrimitiveFromBigInt`
unfoldable pub number_primitive_from_bigint : ℕ → Result Thrown ℕ
number_primitive_from_bigint value = if too_wide value then err unsupported_number else ok value

unfoldable pub has_valid_threshold_material : Option Tholder → ℕ → Bool
has_valid_threshold_material none n = false
has_valid_threshold_material (some tholder) n = leb tholder.size n
