-- ===== src/Lib.antt =====
-- Sci-Pegasus: the parts that admit work and account for it.
--
-- Sci-Pegasus runs teams of agents for research. A Root agent delegates tasks to members under a
-- grant; every external call of a member passes the execution budget of its team; every message of
-- a user passes the rate limits; messages for a running loop wait in a queue.
--
-- Files and the code that they model (paths from the repository's root):
--   Team.Grants, Team.Tools: lib/agent-team/policy.ts. A capability set is a record, a partial one
--     a record of options (`none` is a key that is not given).
--   RateLimit.Window: lib/rate-limit/sliding-window.ts (recordAndCheck, peek, record, the collector
--     of startGC). RateLimit.Limits: limits.ts. RateLimit.Check: check.ts. The clock is an argument
--     of each call, once for each reading of it.
--   Budget: lib/agent-team/execution-budget.ts, with the documents of lib/agent-team/types.ts.
--     Budget.Usage has the counters and exhaustedBudget, Budget.Documents the documents and `$inc`,
--     Budget.Updates the filter and the update of each atomic write, Budget.Scopes usageForScope and
--     scopesFromState, Budget.Receipts the receipts and the ledger's state, Budget.Fence fenceValid
--     and loadBudgetScopes, Budget.Initialize initializeState, Budget.Recovery
--     releaseReservationInternal, abandonStartedInternal and recoverStaleAdmissions,
--     Budget.Settlement completeCall, releaseCall and recordUsage, Budget.Calls and
--     Budget.Reserving reserveCall and assertCanCall, Budget.Starting markCallStarted.
--   Queue: lib/agent/message-queue.ts. Queue.Rows has a row of lib/db/queue-model.ts and the
--     collection's operations, Queue.Intake enqueueMessage, the receipts, binding, rerouting and
--     superseding, Queue.Claims dequeueMessages, acknowledging and releasing, Queue.Repair the
--     sweep repairTerminalRootTeamQueueReceipts, Queue.Replay partitionQueuedMessages. The rows
--     stand in the order of created_at. dequeueMessages loops until nothing is left: its fuel is
--     the number of rows and one, since each round claims a row, and a claimed row is not taken
--     again.
--   Hippocampus: lib/agent/hippocampus-runtime.ts, the compaction of a conversation in the background.
--     Hippocampus.Budget has resolveHippocampusBudget, Hippocampus.Telemetry HippocampusTelemetry,
--     Hippocampus.Tasks the state of HippocampusRuntime with settle, cancel and the ends of a task,
--     Hippocampus.Merge mergeNow, Hippocampus.Start canStart and start, Hippocampus.Requests
--     beforeRequest, Hippocampus.Exit onLoopExit and abort, Hippocampus.Restart the constructor and
--     safetySnapshot, Hippocampus.Safety what every operation keeps. What a promise or a timer brings
--     while an operation waits is an argument (`Wait`, `Preparation`, `Drain`); that anything else
--     calls the runtime during a wait is not modelled. Quotients that the code rounds are fractions.
--   Workspace.Paths: lib/workspace/path-policy.ts, normalizeWorkspacePath and assertWorkspaceWritePath,
--     with which Workspace.Acl.Segments fills the interface. The form NFC and the lower case are
--     parameters (`Unicode`); a text is cut into characters, and its length counts UTF-16 units.
--   Compaction: lib/agent-compaction/repository.ts, the atomic writes to the document of a durable
--     compaction job. Compaction.Jobs has the document of types.ts and the filters' parts,
--     Compaction.Writes the kinds of write, Compaction.Filters and Compaction.Updates a filter and an
--     update for each of them, Compaction.Store a write as the store applies it and the job that
--     enqueueDurableCompaction creates. What transitionCompactionStatus read before its write is a part
--     of the write (`Read`), so that a run of writes is any interleaving of the processes. The fields
--     that no filter reads (models, projections, messages, the delivery of the outbox) are left out.
--     Compaction.Merging is applyPreparedMergeToOwner: a round reads the owner's document and writes it
--     under the revision it read, at most 8 rounds (MAX_MERGE_CAS_ATTEMPTS), and what others do between
--     the two, and whether the lease is live, is an argument (`Round`). The hashes are arguments.
--   Workspace.Acl: lib/workspace/multi-agent/acl.ts. The path policy is the interface `PathPolicy`.
--   Common: tests, lists and the names of the library that the others share.
--   Examples: concrete documents, requests and windows.
--
-- How the state is modelled. A method of the ledger is a function from the ledger (the state
-- document, the receipts by id, the telemetry by Run) to a result or an error and the ledger that its
-- writes left. It is a run with no other process between its writes; what other processes may do
-- between two writes is the step relation of Budget.Ceiling, a step for each atomic write of a call's
-- life with the code's own filter and update; recordUsage, which tests no limit, has none. All
-- readings of the clock in one method of the ledger, and in one dequeue, are one time. Numbers are
-- natural: costs are counted in units of 10⁻¹² USD, the precision to which the code rounds, and a number that JavaScript holds is a value of `Amount` where
-- the code tests it. Where the code throws a TypeError, or computes NaN, the model has `none`.
--
-- Parameters. The document store is the record `Mongo` of Mongo.antt, and `IsMongo` states what its
-- documentation says of one write to one document. SHA-256 is `k` or `scope_key`, the functions on
-- texts are `Texts`, the fence validators `Validator`. What another collection returned is an
-- argument (`ScopeReads`, `UsageRow`, `PlanRead`). The queue's collection is the record `Collection`, and
-- `IsCollection` states its documented behaviour; the counts it reports are left open.
--
-- Not modelled: recordModelUsage, the instrumentation of providers, the canonical form of a tool's
-- input, the conversion of currencies, the constants of defaultTeamPolicy, name normalisation and
-- private paths; the texts of errors; the order in which the duplicate-key error of a concurrent
-- upsert is resolved, whose outcome is the document that is there.
-- Of the durable compaction, what the other functions answer around their write, the delivery of the
-- outbox, the fence's installation on the owner and the runtime's settling are left out. Model
-- providers, tools, routes, the user interface and the other queries of the database have no model.
-- Of the timing of a background compaction, numbers below 0 and NaN have no representation, and a
-- duration that was stored as Infinity is outside what the model of the budget computes.
pub mod Budget
pub mod Common
pub mod Compaction
pub mod Examples
pub mod Hippocampus
pub mod Mongo
pub mod Queue
pub mod RateLimit
pub mod Team
pub mod Workspace
