-- ===== src/XSaved.antt =====
-- The store of saved posts (src/integrations/x-saved/store.ts): `Store` are its tables and the writes,
-- `Ingesting` what an ingest keeps.
pub mod Store
pub mod Ingesting
mod Tests
