-- ===== src/Lib.antt =====
-- A model of FAAR, a runtime that lets an agent act on a venue only under a grant of authority.
--
-- The program. A principal provisions a capability grant with limits. An intent under the grant is
-- registered, judged by gates, given a reservation of budget and a permit, submitted to a venue, and
-- reconciled against settlement evidence. The datastore is the point where all workers meet: every
-- operation of it is one SQLite transaction. An external anchor keeps, outside the datastore, the
-- greatest epoch and fence of each grant version, so that a restored copy is recognised.
--
-- The files and the code.
--   Common, Table: tests on numbers, results of code that raises, and the SQL statements (SELECT,
--     UPDATE, COUNT, SUM, MAX) on a table that is a list of rows.
--   Models, Money: faar/models.py and the amounts of faar/canonical.py. Money.Rounding is the
--     arithmetic of Python's decimals that faar/store.py and faar/settlement.py use on amounts.
--   Anchor: faar/anchor.py.
--   Store: faar/store.py, class SQLiteIntentStore. Schema has the tables, Access what the operations
--     share, Grants, Fences and Controls the grants and the emergency controls, Permits the permit
--     ledger, Usage the reservations, Evidence the hash chains, Lifecycle the intents.
--   Gates: faar/gates.py. Capability has evaluate_capability: Shape the fields of the payload, Scope
--     what the grant covers, Limits the amount and the bound on the price. CapabilityBounds says what
--     its ALLOW means, with Completeness for the fields, Assets for the assets and Slippage for the
--     bounds on the price; RiskBounds says what the ALLOW of Risk means.
--   Settlement: QuorumSettlementVerifier.verify of faar/settlement.py; the runtime reads its record
--     and stores the transition (Lifecycle).
--   Worker: what FAARRuntime calls and is raised (Defs), the reason codes, and _evaluate_fresh
--     (Judgement); Effects has one rule for each way to build an action.
--   Permits: ConstrainedPermitAuthority.issue of faar/permits.py.
--   Runtime: faar/runtime.py, class FAARRuntime. Calls has its calls of the store, Stops the stops and
--     the handlers of exceptions, Integrity the checks of a settlement, Submission is _submit, and
--     Reconciliation is reconcile, whose record is judged by Judging, which hands a record of an effect
--     to Outcomes and an authoritative NONE to Absence; Processing is process. Effects has what each of
--     them does to the datastore, and Termination why the fuel is enough; the other files have the
--     properties.
--   Store.Steps: the operations as a step relation. The transactions are serialised, so that the
--     interleavings of workers are the sequences of steps (Run).
--   Store.Progress: what every step keeps of each table, by one lemma for each operation.
--   Store.Authority, Store.Intents, Store.Budget, Store.Restore, Store.Chain: the properties.
--   Store.Tests, Gates.Tests, Settlement.Tests, Runtime.Tests: the same on concrete data.
--
-- How the state corresponds. An operation takes the store and returns its value with the store that
-- the transaction commits, or the exception with which it rolls back (Tx). A stop that commits
-- although the anchor failed returns `behind` (AnchorUnavailableAfterCommit). Identifiers, hashes and
-- texts that the code only compares are natural numbers, instants are microseconds since 1970, and
-- amounts count units of 10^-100 dollars, which is below the precision that the parser of amounts
-- admits; the amounts of a risk snapshot and of a settlement are whole numbers of this unit too, and
-- those of a settlement carry the sign of a zero (Decimal). A sum of amounts and the amount that a
-- settlement source votes for are rounded to 28 significant digits, half to even, as Python's decimals
-- are; comparisons are exact. The digits over 28 are counted on fuel, for which the number itself is
-- enough, as each step takes a digit away. Rows are summed in the order of insertion, since SQL leaves
-- the order open; where the sums have at most 28 digits it does not matter. The current time and the
-- ids that the caller chooses are arguments. Subtraction from an instant stops at 0, as all instants
-- are later. Loops are over the rows of a table.
--
-- How a worker corresponds. An action takes the world (the datastore, the number of calls made and the
-- permits handed to adapters) and returns its value or its exception with the world after it. Each
-- call of the store is a transaction, before which the surroundings (Env) may let other workers and
-- venues commit, and may keep the datastore locked. A reconciliation that submits again reconciles
-- again inside; the fuel of `reconcile` and `process` counts these nested calls, and where it is spent
-- the action raises `out_of_fuel` and the world is marked `exhausted`. A nested call follows an attempt
-- that was counted, of which a grant allows max_submission_attempts: more fuel than that is enough
-- (Runtime.Termination). The other properties hold for every fuel, whether an action returns or raises.
--
-- Parameters. Hashing and MACs are Python's hashlib and hmac (Crypto); that two envelopes do not
-- collide is a hypothesis where it is used. Whether an anchor answers is decided by its fields
-- `readable` and `writable`. The clock, adapters, settlement verifiers, the trust store, the signer,
-- the hashes, the texts of reasons and of evidence, the leases and the other workers are fields of
-- Env; that the others commit only operations of the store is the hypothesis IsFair, and that they leave
-- the row of the intent alone, which is what its lease is for, the hypothesis IsLeased.
--
-- Not modelled: the verification of signed permits and attestations, the venues, the evidence of
-- settlements and the outcomes; the decisions that a result of the runtime carries, its override of
-- the clock for tests and the threads of its adapter calls; opening and migrating a datastore; leases
-- and locks between processes, which serialise and do not change rows; readers that list rows; the
-- limits on sizes of texts; the command line.

pub mod Common
pub mod Table
pub mod Models
pub mod Money
pub mod Anchor
pub mod Store
pub mod Gates
pub mod Settlement
pub mod Worker
pub mod Permits
pub mod Runtime
