-- ===== src/Lib.antt =====
-- TR4CE compiles observations of tokenised vaults into evidence reports, decides policies on them, and
-- prepares calls that the owner's wallet signs. This library models the logic between the indexer and
-- the wallet.
--
-- The parts, and the files that model them:
-- - Prelude and its children: results, lists, integers and texts that the models share. Platform: what
--   the program takes from its language and libraries (JSON quoting, SHA-1, SHA-256, keccak256,
--   the codes of characters, hexadecimal rendering, the encoding and decoding of calls, Date.parse,
--   toFixed, the order of
--   texts), as a record of functions that every model takes as a parameter. Platform/Plain is a concrete
--   one, for tests.
-- - Domain: the types of packages/domain/src. Domain/Canonical: canonicalJson and canonicalDigest of
--   packages/domain/src/canonical.ts, and the report identity of packages/evidence/src/canonical.ts.
-- - Evidence: packages/evidence/src. Rational (gcd, reduce, compare, floorDiv, toBasisPoints), Flows
--   (aggregateFlows), ShareValue (observeShareValue), Capability (isUsable), and the draft of report.ts:
--   Input and Identity (its types, the hashed value), Report (the steps of buildEvidence), Draft
--   (buildEvidence, isComplete), Attach (attachPolicy). A draft is built from snapshots that the
--   indexer stored, and carries a reason code for what it leaves out.
-- - Policy: packages/policy/src/evaluate.ts. Rules has the five rules, Evaluate the overall status;
--   they read a draft and the context that the caller observed.
-- - Actions: prepared actions. Store has the rows and constraints of
--   packages/db/migrations/0004_prepared_actions.sql, Repository the operations of
--   packages/db/src/repositories/actions.ts, Binding packages/chain/src/simulate.ts, Receipts
--   packages/chain/src/receipts.ts, and Service apps/api/src/services/action-service.ts over them;
--   its prepareAction is Service/Preparation, which asks Chain/Prepare for the calls through Service/Plans.
-- - Bytes: hexToBytes, bytesToHex and bytesEqual of packages/db/src/schema/columns.ts. Identifiers:
--   uuidV5 and the identifiers of rows of packages/db/src/ids.ts.
-- - Observations: the tables of packages/db/migrations/0001_registry_observations.sql and
--   0002_reports_and_policies.sql (Tables) with the repositories that write and read them, from
--   packages/db/src/repositories: Upsert and Promote (promoteRange), Orphans (invalidateOrphanedBlock)
--   of observations.ts, Registry the lookups of vaults.ts, Staging the sink's rows that promotion reads,
--   Cursors cursors.ts, Reports (insertReport) reports.ts, Window (readObservationWindow)
--   evidence-window.ts. Sound says when a report stands on the tables.
-- - Worker: the range of a promotion (Promotion), promoteConfirmed and the loop over it (Confirmed) of
--   apps/worker/src/promote-confirmed.ts, reconcileDeepReorg (DeepReorg) of
--   apps/worker/src/reconcile-deep-reorg.ts. Reachable has the steps of all writers together.
-- - Chain: packages/chain/src. Capabilities (capabilities.ts) classifies the probes that Evidence
--   reads, Prepare (prepare.ts) prepares the calls of a deposit and of a redemption.
--
-- How the state and the values correspond: a bigint or a decimal text of an amount is an integer. In
-- the models of actions and of evidence a hash or a hexadecimal column is the number that it denotes;
-- in Observations and Worker a hash is the list of its character codes and a bytea column a list of
-- bytes, since there the conversions between them are the code. A time is its milliseconds. A table is
-- a list of rows, simulations newest first. A thrown error is an error value; a transaction that throws
-- is rolled back, so an error leaves the tables as they were. A schema of the program that a value is
-- parsed with is a Boolean parameter where it may refuse.
--
-- Bounds: gcd recurses on the accessibility of < and always ends. The only fuel is that of the worker's
-- loop, promote_loop, whose turns see their own registry, sink and provider; promote_loop-Ends has the
-- number of turns that are enough. The result in basis points keeps the check that it is a safe integer.
--
-- Not modelled: the Rust indexer under substreams, the web and MCP applications, HTTP routes, the
-- reads of the chain by a JSON-RPC client, policy compilation and
-- the rows of policies, seedRegistry and the joined views of the registry, insertRuleResults, the
-- evidence service but for the plans of actionChainFrom, and the interleaving of statements inside one
-- transaction.
pub mod Bytes
pub mod Identifiers
pub mod Observations
pub mod Prelude
pub mod Platform
pub mod Domain
pub mod Evidence
pub mod Policy
pub mod Chain
pub mod Actions
pub mod Worker
