-- ===== src/Rss.antt =====
-- The RSS store (src/rss/store.ts): `Feeds` are the tables and what saves a feed, `Articles` the
-- listing, the dispatches and the reading of articles.
pub mod Feeds
pub mod Articles
pub mod Joins
pub mod Invariant
pub mod Pending
pub mod Claiming
pub mod ClaimInvariant
pub mod Saving
pub mod Reached
pub mod Named
mod Tests
