-- ===== src/Lib.antt =====
-- A model of the event-processing core of keri-ts, with the theorems that make it correct.
--
-- The program accepts the key events of an identifier one by one. A live state (`Kever`) evaluates
-- an event against itself and the database and returns a decision: accept with a transition, escrow,
-- reject. What the decision rests on is modelled part by part.
--
--   Prelude      lists, sets, maps, options and texts of JavaScript over the native numbers
--   Threshold    packages/cesr/src/primitives/tholder.ts: rationals, weights, weighted expressions,
--                `Tholder` from its semantic form, and `satisfy`
--   Witness      packages/keri/src/core/witnesses.ts: `deriveRotatedWitnessSet`
--   Event        the getters of `SerderKERI` (packages/cesr/src/serder/serder.ts), `KeyStateRecord`
--                (packages/keri/src/core/records.ts), the decisions
--                (packages/keri/src/core/kever-decisions.ts)
--   Kever        packages/keri/src/core/kever.ts, with the reads of packages/keri/src/db/basing.ts
--                and packages/keri/src/db/subing.ts. Load is `loadState` and `state`, Store the
--                database and who is local, Signatures `verifyIndexedSignatures` and `exposeds`,
--                Backers `deriveBacksDecision`, Seals the lookups of delegating events and
--                `fetchDelegatingEvent`, Recovery `validateDelegatedRecovery`, Delegation
--                `validateDelegation`, Attachments `validateAttachmentsInternal`, Inception
--                `verifyIncept` and `evaluateInception`, Rotation `evaluateRotation`, Update
--                `evaluateInteraction`, `evaluateUpdate` and `applyTransition`, Log `logEvent`.
--   Tables       what the table families promise: `Suber`, `CesrIoSetSuber`, `OnIoDupSuber`, `IoSetSuber`
--                and `OnSuber` (packages/keri/src/db/subing.ts, packages/keri/src/db/core/lmdber.ts)
--   Kevery       packages/keri/src/core/eventing.ts: `decideEvent`; Duplicate is
--                `buildDuplicateDecision`, Repair the repairs of source seals, Escrow
--                `persistEscrowInstruction` and `removeEscrow`, Apply `applyDecision`, Replay
--                `processEvent` and the replay of the escrows
--
-- `processEvent` decides and applies. `decideEvent` asks `Kever` (inception or update) or settles a
-- duplicate itself; `applyDecision` lets the kever log the event, pins the key state, and pushes the
-- cues, or stores the event in the bucket of its reason, from which a replay decides it again.
--
-- How the code is read. A method that may throw returns a `Result`; one that changes the database
-- (the stored source seals in `aess.` and the cache of live states) returns it with its value. A
-- table is an association list, and `kels.` the list of its items in insertion order. Keys, digests
-- and identifiers are their qb64 texts. Hexadecimal number fields of a key-state record stand as the
-- numbers they print; JavaScript numbers are exact below 2 ^ 53 and are natural numbers here.
-- Signature and digest checks, the clock, the JSON reader and the reading of qb64 texts are the
-- record `Primitives`, a parameter. The getter `eventSeals` throws on an event that has an item in its
-- `a` list which is no known seal: the events of the model are those on which it returns. Messages and
-- contexts of decisions, which are diagnostics, are left out. A chain of tests whose values the source
-- names once is a chain of small functions here.
--
-- The climb of `validateDelegatedRecovery` runs on fuel: `recovery_fuel` is one more than the product
-- of the numbers of possible delegators and delegating events of the database, since a pair that comes
-- again ends it. The gcd loop recurses on the accessibility of its second argument. Every other loop is
-- over a list.
--
-- A method that throws has no state after it here: what it wrote before it threw is not kept.
--
-- Not modelled: receipts, queries and replies (the rest of packages/keri/src/core/eventing.ts), the wire
-- form of thresholds, events with a malformed or unknown seal, building and parsing of events, the key
-- encodings of the tables, LMDB, credentials, the command line and the HTTP hosts.
pub mod Prelude
pub mod Witness
pub mod Tables
pub mod Threshold
pub mod Event
pub mod Kever
pub mod Kevery
