-- ===== src/Wallet/Invariants.antt =====
-- Properties of any requests to wallets/wallet.service.ts, under interference.
pub mod Append
pub mod Versions
pub mod ModelVersions
pub mod NonNegative
pub mod Wealth
pub mod Recordable
