-- ===== src/Wallet.antt =====
-- The wallet service, wallets/wallet.service.ts: escrow holds, settlements, refunds and partial
-- settlements over the wallets of users and models.
pub mod Config
pub mod Steps
pub mod Hold
pub mod Settle
pub mod Refund
pub mod Partial
pub mod Balance
pub mod Calls
pub mod Guarantees
pub mod Invariants
pub mod Tests
