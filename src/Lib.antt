-- ===== src/Lib.antt =====
-- aicortex: the core of the memory service as a model, with the theorems on it.
--
-- The program keeps memories and typed claims. A memory enters through the capture gate
-- (crates/aicortex-gate), which normalizes the body and asks six rules in order; what it admits or
-- quarantines is the record of crates/aicortex-types. A claim is appended to a history and the
-- current view of a slot is computed from that history (crates/aicortex-claims), over the civil
-- times of crates/aicortex-types/src/claim_time.rs. A search keeps the best of what it scans in the
-- bounded heap of crates/aicortex-index. Before a claim is appended, the claim gate validates a
-- proposal against the registered predicates, weighs its evidence under a policy and answers with
-- the claim that is admitted, a hold or a refusal. Bodies are embedded in chunks, which
-- crates/aicortex-embed/src/chunk.rs cuts.
--
-- Which file models which part:
--   Types/Error, Types/Memory   crates/aicortex-types/src/{error,memory,trust,actor,scope,span,
--                               provenance}.rs: `validate_key`, the records, `Memory::new`
--   Types/Claim                 .../{claim,claim_value,claim_evidence,predicate}.rs
--   Types/Predicate             .../predicate.rs: `PredicateDef::new`, `PredicateSet::new`, wire form
--   Types/Evidence              .../claim_evidence.rs: `Evidence`, `ClaimProposal`
--   Types/Time                  .../claim_time.rs: Digits (`digits`), Date (`CivilDate`), Zoned
--                               (`Zone`, `ZonedTime`), Interval (`TimePoint`, `Bound`, `Interval`),
--                               the wire forms of dates and times (Wire) and of intervals
--                               (Interval/Wire)
--   Gate/Limits, Gate/Normalize crates/aicortex-gate/src/{limits,normalize}.rs
--   Gate/Walk                   .../walk.rs: `walk` is Walk/Run, its laws Walk/Laws and Walk/Chain
--   Gate/Capture                .../{lib,candidate,rules,verdict}.rs: `Gate::evaluate` and
--                               `Gate::evaluate_overridden` are Capture/Evaluate
--   Gate/ClaimGate              .../claim_gate.rs: Policy (`AdmissionPolicy`), Grounds (`earned`,
--                               `Grounds::of`, `relate`), Steps (the ten steps), Evaluate
--                               (`Gate::evaluate_claim`); the other files prove
--   Claims/Registry             crates/aicortex-claims/src/registry.rs: `RegistrySnapshot`
--   Claims/Validate             .../lib.rs: `validate`; its result is the definition, since the claim
--                               in a `ValidClaim` is the one that was given
--   Claims/Slot, Claims/History crates/aicortex-claims/src/history.rs: the three append operations
--   Claims/Window               .../{asof,policy,projection}.rs: windows of points and intervals
--   Claims/Projection           .../projection.rs: `project` as its passes (Projection/Slots)
--   Index/TopK                  crates/aicortex-index/src/topk.rs: `TopK::offer`, `TopK::admits`,
--                               `TopK::into_sorted`; the `BinaryHeap` is a bag of entries
--   Embed/Chunk                 crates/aicortex-embed/src/chunk.rs: `Chunker::split`
--   Embed/WordPiece             .../wordpiece.rs: `from_document` (`WordPiece::from_json`), `encode`
--   Store/Cursor                crates/aicortex-store/src/cursor.rs, and the filter of memory_repo.rs
--   Prelude, Text               helpers: results, lists, integers, the order of strings, text
--   Tests                       the theorems at concrete inputs
--
-- How state corresponds. A method that takes `&mut self` is a function from the old state to a
-- result with the new one, so a failed call leaves the old state. A `Result` is the sum of
-- Prelude/Fallible, its `?` the bind. A `BTreeMap` or `BTreeSet` is a list in ascending order, or one
-- of which only membership is read. A text that the code takes apart is its list of code points; a
-- key that is only compared is a string; an id is a number. Loops are structural recursion on the
-- list that they run over, except the chunker's, which runs on one unit of fuel for each byte of the
-- body and one more; this is enough, since each pass moves its start on by a byte at least. Machine integers: a parsed number is cut to its
-- width as the code does, and `uses` saturates at 2^32 - 1; the chunker's sums
-- saturate at 2^64 - 1, and its theorems ask that the body's length is within that.
--
-- What other crates do is a parameter: the closed evaluation of the action gate (`ClosedGate`, with
-- its documented behaviour as `IsClosed`), the composition of Unicode, the scan of the secret
-- detectors, the test for the normalization form, the tables of `Unicode`, the
-- MAC, SHA-256 and base64url (`Crypto`), and the calendar and zone database (`Chrono`).
--
-- Not modelled: the digests of the view, serialization and the sentences of error messages, the
-- ledger entries of the claim gate, the crates aicortex-recall and
-- aicortex-api, the rest of aicortex-store, of aicortex-embed and of aicortex-index, and the applications.
pub mod Prelude
pub mod Text
pub mod Types
pub mod Gate
pub mod Claims
pub mod Index
pub mod Embed
pub mod Store
pub mod Tests
