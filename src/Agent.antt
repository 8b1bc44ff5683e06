-- ===== src/Agent.antt =====
-- The runs of agents: `ActiveRuns` is src/agent/active-run-registry.ts, `AdmissionWait` is
-- src/queue/session-admission.ts, which waits for the admission of a Bot Task Session, and `Ledger` is
-- src/memory/export-ledger.ts.
pub mod ActiveRuns
pub mod Registry
pub mod RegistryMap
pub mod AdmissionWait
pub mod AdmissionEnds
pub mod Ledger
mod Tests
