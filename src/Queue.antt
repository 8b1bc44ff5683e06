-- ===== src/Queue.antt =====
-- The durable job queue (src/queue/types.ts and src/queue/repository.ts): the stored rows, the
-- state of the database, and the operations of QueueRepository on it.
pub mod Payload
pub mod Metadata
pub mod Rows
pub mod Store
pub mod Keeps
pub mod Sources
pub mod Enqueue
pub mod Fenced
pub mod Finish
pub mod Claim
pub mod Recover
pub mod Admission
pub mod Sessions
pub mod Provision
pub mod Commit
pub mod Delivery
pub mod DeliveryWrites
pub mod Cursor
pub mod Invariant
pub mod History
pub mod Fencing
pub mod Taking
pub mod MayRun
pub mod Oldest
pub mod Sends
pub mod ChunkOrder
pub mod StoredKeys
pub mod EnqueueTwice
pub mod LostSends
pub mod PuttingBack
pub mod Runs
pub mod Recovery
pub mod Sending
pub mod Retries
pub mod Cursors
pub mod PayloadLaws
pub mod Idempotence
pub mod Answers
mod Tests
mod Examples
mod DeliveryExamples
mod TakingTests
