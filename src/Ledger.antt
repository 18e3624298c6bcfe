-- ===== src/Ledger.antt =====
-- The ledger service, ledger/ledger.service.ts.
pub mod Pii
pub mod Entries
pub mod Idempotency
pub mod Grows
pub mod Snapshot
pub mod Reconciliation
pub mod Query
pub mod Tests
