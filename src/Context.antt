-- ===== src/Context.antt =====
-- The context of a session (src/features/session-context): `Messages` are its messages, `Compaction`
-- the split of a history and the estimate of its tokens, `Segments` the archives that a session goes
-- back to, and `Finals` the projection to final answers.
pub mod Messages
pub mod Compaction
pub mod Splitting
pub mod Histories
pub mod Estimates
pub mod Segments
pub mod Archives
pub mod Finals
pub mod Projection
mod Tests
