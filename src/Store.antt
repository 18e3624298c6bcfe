-- ===== src/Store.antt =====
-- The documents of db/models and the database operations that the services call on them. MongoDB
-- itself is outside the repository: `DocStore` is what the services rely on, and `Mongo` has one
-- store for each collection of the wallets and the ledger.
pub mod Docs
pub mod Interface
pub mod Memory
pub mod Table
use red_room_rewards.Prelude.{ℕ, String, List, Permᴰ}
use Docs.{Wallet, ModelWallet, EscrowItem, LedgerEntry, IdempotencyRecord}
use Interface.{DocStore}

pub record Mongo : Type 1 where
  pub wallets : DocStore String Wallet
  pub model_wallets : DocStore String ModelWallet
  pub escrow_items : DocStore String EscrowItem
  pub ledger_entries : DocStore String LedgerEntry
  pub idempotency_records : DocStore (String × String) IdempotencyRecord
  -- The order in which the call of a number meets the ledger entries that it has found, by which
  -- a sort leaves those of one key. MongoDB leaves this order open, and it may change from call
  -- to call.
  pub arrange : ℕ → List LedgerEntry → List LedgerEntry
  pub arrange-Perm : (n : ℕ) (es : List LedgerEntry) → Permᴰ es (arrange n es)

-- The contents of the collections.
pub record Db (M : Mongo) : Type 0 where
  pub wallets : M.wallets.Docs
  pub model_wallets : M.model_wallets.Docs
  pub escrow_items : M.escrow_items.Docs
  pub ledger_entries : M.ledger_entries.Docs
  pub idempotency_records : M.idempotency_records.Docs
