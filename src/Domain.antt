-- ===== src/Domain.antt =====
-- The vocabulary of the wallets and the ledger: wallets/types/domain.types.ts, the request types of
-- wallets/types/escrow.types.ts and ledger/types.ts, and the errors that the services throw.
mod Kinds
mod Reasons
mod Requests
mod Errors
pub use Kinds.*
pub use Reasons.*
pub use Requests.*
pub use Errors.*
