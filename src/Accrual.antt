-- ===== src/Accrual.antt =====
-- The point accrual service, services/point-accrual.service.ts: awards and direct deductions.
pub mod Requests
pub mod Checks
pub mod Award
pub mod Deduct
pub mod Alone
pub mod Deduction
pub mod Calls
pub mod Guarantees
pub mod Invariants
pub mod Tests
