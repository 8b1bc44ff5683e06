-- ===== src/Lib.antt =====
-- This library models the core of a Discord agent: the SQLite queue through which every message, cron
-- job and delivery passes, the cut of long answers into Discord messages, the locks under which Agents
-- run, the context that a session hands to its Agent, the approval of tool calls, and the stores of RSS
-- articles and saved posts.
--
-- The parts, and how they interact. A Discord message, a cron job or a Bot call is put into the table
-- `jobs` (enqueue). A worker claims the first job of each session (claim), holds it by a lease and a
-- fencing token, runs an Agent, and commits its result. A commit writes one row of `deliveries` per
-- chunk of the answer, which splitMessage cuts. A delivery worker claims these rows and sends them.
-- Direct Bot calls take their turn in a session by tickets, which are rows of `jobs` that no worker
-- claims. Expired leases, retries and dead letters bring a job back or end it. While an Agent runs it
-- holds an inference resource, which it may lend to one child; it is registered as an active run, which
-- an operator may stop; its history is split and summarized when it grows; a tool that needs it asks
-- for an approval. A cron job reads RSS articles in dispatches, which it can recover.
--
-- Files, and the code that they model:
-- - Base: shared names, Boolean tests on native numbers, lists, and SQL statements over one table.
-- - Message (src/utils/splitMessage.ts): Text is a list of UTF-16 code units; Plain is
--   splitPlainMessage, Fence is fenceAt, splitFencedMessage and splitMessage; Bounds, Content and
--   FenceBounds hold the proofs.
-- - Queue (src/queue/repository.ts, src/queue/types.ts, src/queue/source-handlers.ts):
--   - Payload, Metadata, Rows: stored JSON, the execution metadata columns, and the rows of the tables.
--   - Store: the database as a record of tables, and statements as a state monad with exceptions.
--   - Sources: SourceHandlers.register and policy. Enqueue: enqueue. Claim: claim.
--   - Fenced: fenced, updatePayload, markRunning, heartbeat, freezeExecutionIdentity.
--   - Finish: failAttempt, retry, deadLetter. Recover: recoverExpired. Commit: commitResult.
--   - Admission, Sessions: Bot Task Sessions and tickets. Provision: provisionCronJob, patchJobPayload.
--   - Delivery: claimDelivery. DeliveryWrites: the writes of its holder and of an operator. Cursor: the Discord backfill cursors.
--   - History: the calls as events, and the databases that histories of calls reach. Between two
--     calls anything may happen; within one call JavaScript and BEGIN IMMEDIATE let nothing in.
--   - Keeps, Runs: rules for what an action keeps and how a sequence of actions runs.
--   - Invariant and its children: the invariant of `jobs`, call by call.
--   - MayRun, Taking, Oldest: what claim takes. Sends, LostSends, ChunkOrder: what claimDelivery takes.
--     PayloadLaws, StoredKeys: what updatePayload stores. Fencing, PuttingBack, Recovery, Idempotence,
--     Retries, EnqueueTwice, Answers, Sending, Cursors: properties of other operations. Tests, TakingTests,
--     Examples, DeliveryExamples: runs at concrete inputs.
-- - Inference (src/queue/inference-lock.ts): Lock is acquireInferenceLock; LockInvariant, LockProgress
--   and LockReached hold its states. Loan is acquire and createHeldInferenceResource; LoanInvariant,
--   LoanSteps, LoanClosing and LoanReached hold its states.
-- - Agent: ActiveRuns, Registry and RegistryMap (src/agent/active-run-registry.ts), AdmissionWait and
--   AdmissionEnds (src/queue/session-admission.ts), Ledger (src/memory/export-ledger.ts).
-- - Proxy (src/proxy/tool-approval.ts): Approval; ApprovalCalls, ApprovalInv and
--   ApprovalReached hold its reachable states.
-- - Rss (src/rss/store.ts): Feeds is getFeedState, touchFeed and saveFeedEntries; Articles the listing,
--   the claims, their release and markArticlesRead; Joins, Pending, Claiming, Invariant,
--   ClaimInvariant, Saving, Reached and Named hold the proofs.
-- - XSaved (src/integrations/x-saved/store.ts): Store is the tables and their writes, Ingesting the proofs.
-- - Context (src/features/session-context): Messages, Compaction and Segments (compaction.ts,
--   preprocessing.ts) and Finals (final-only.ts); Splitting, Histories, Estimates, Archives and
--   Projection hold the proofs.
--
-- How the source is read. Times are milliseconds, for an ISO text orders as its time; a call reads the
-- clock once, and randomUUID is an argument (Ambient). JSON numbers are natural numbers, and reading
-- back a stored JSON text gives the value that was stored. A table is the list of its rows in rowid
-- order, and an ORDER BY with a tie takes the first row. An INSERT that breaks a primary key or a
-- UNIQUE constraint throws `constraint`; a transaction that throws is undone. error_json is kept by
-- its message. sha256, JSON.stringify and the Zod schemas are parameters (Host, Source), of which
-- nothing is assumed. A loop of the split runs on fuel, one more than the length of the text: each
-- round takes at least one code unit where the limit is positive. The loops over rows are structural.
--
-- Histories leave provisionCronJob to ended jobs: the delivery worker (src/queue/delivery.ts) calls
-- it while it delivers the job's result.
--
-- A call of a repository that throws is a parameter where its caller handles it (Rounds, Throws).
--
-- Promises and closures. A promise is the record of how it was settled, and a closure is a function on
-- the state of the object that it closes over; a call is named by a number. The loops of the inference
-- lock run on fuel, the number of waiters, of which each round takes one; the wait for a ticket and the
-- walk through archives run on fuel for which the theorems say how much is enough. Whether a signal is
-- aborted, and what a timer brings, are parameters. The tokens of a message are a parameter
-- (estimateMessageTokens measures JSON), and so is trim() on texts.
--
-- Not modelled: the schemas and their migrations, read-only listings, recordDeadLetter, the calls of
-- the model that summarize a history, and the workers, clients and tools around the queue, which are
-- mostly I/O.
pub mod Base
pub mod Message
pub mod Queue
pub mod Agent
pub mod Context
pub mod Inference
pub mod Proxy
pub mod Rss
pub mod XSaved
