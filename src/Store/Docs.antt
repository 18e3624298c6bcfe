-- ===== src/Store/Docs.antt =====
-- The documents: wallet.model.ts, model-wallet.model.ts, escrow-item.model.ts,
-- ledger-entry.model.ts and idempotency.model.ts of db/models. Mongoose's own timestamps are left
-- out, since no service reads them.
use red_room_rewards.Prelude.{ℕ, ℤ, String, Option}
use red_room_rewards.Domain.{AccountType, TransactionType, BalanceState, EscrowStatus, Metadata}

pub record Wallet : Type 0 where
  pub user_id : String
  pub available_balance : ℤ
  pub escrow_balance : ℤ
  pub currency : String
  pub version : ℕ

pub data ModelWalletType : Type 0 where
  promotional earnings : ModelWalletType

pub record ModelWallet : Type 0 where
  pub model_id : String
  pub earned_balance : ℤ
  pub currency : String
  pub type : ModelWalletType
  pub version : ℕ

pub record EscrowItem : Type 0 where
  pub escrow_id : String
  pub user_id : String
  pub amount : ℤ
  pub status : EscrowStatus
  pub queue_item_id : String
  pub feature_type : String
  pub reason : String
  pub metadata : Option Metadata
  pub created_at : ℕ
  pub processed_at : Option ℕ
  pub model_id : Option String

pub record LedgerEntry : Type 0 where
  pub entry_id : String
  pub transaction_id : String
  pub account_id : String
  pub account_type : AccountType
  pub amount : ℤ
  pub type : TransactionType
  pub balance_state : BalanceState
  pub state_transition : String
  pub reason : String
  pub idempotency_key : String
  pub request_id : String
  pub balance_before : ℤ
  pub balance_after : ℤ
  pub timestamp : ℕ
  pub currency : String
  pub metadata : Option Metadata
  pub escrow_id : Option String
  pub queue_item_id : Option String
  pub feature_type : Option String
  pub correlation_id : Option String
  pub tenant_id : Option String

pub record IdempotencyRecord : Type 0 where
  pub points_idempotency_key : String
  pub event_scope : String
  pub result_hash : String
  pub stored_result : String
  pub expires_at : Option ℕ
  pub retention_until : Option ℕ
  pub tenant_id : Option String
