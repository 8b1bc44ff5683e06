-- ===== src/Queue/Invariant.antt =====
-- The invariant of the table `jobs` of src/queue/repository.ts, and what follows from it over
-- every history of operations.
pub mod Defs
pub mod Calm
mod Rows
pub mod Writes
pub mod Results
pub mod Starts
pub mod Claims
pub mod Appends
pub mod Inserts
pub mod Tickets
pub mod Moves
pub mod Deliveries
pub mod Reached
