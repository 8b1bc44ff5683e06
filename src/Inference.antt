-- ===== src/Inference.antt =====
-- Who may use an inference resource (src/queue/inference-lock.ts): `Lock` is the lock by resource and
-- provider, and `Loan` the slot that a parent lends to one child at a time.
pub mod Lock
pub mod LockInvariant
pub mod LockProgress
pub mod LockReached
pub mod Loan
pub mod LoanInvariant
pub mod LoanSteps
pub mod LoanClosing
pub mod LoanReached
mod Tests
