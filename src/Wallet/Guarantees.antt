-- ===== src/Wallet/Guarantees.antt =====
-- What a relation between databases has to do for the methods of the wallet service to keep it, under
-- any interference that keeps it too.
mod Steps
mod Shared
mod Hold
mod Settle
mod Refund
mod Partial
mod Calls
pub use Steps.*
pub use Hold.*
pub use Refund.*
pub use Calls.*
