-- ===== src/Domain/Requests.antt =====
-- The requests and responses of wallets/types/escrow.types.ts and ledger/types.ts.
use red_room_rewards.Prelude.{ℕ, ℤ, String, Option}
use red_room_rewards.Domain.Kinds.{AccountType, TransactionType, BalanceState, Metadata}

-- `reason` is the text of a `TransactionReason`; `createEntry` checks that it is not empty.
pub record CreateLedgerEntryRequest : Type 0 where
  pub transaction_id : Option String
  pub account_id : String
  pub account_type : AccountType
  pub amount : ℤ
  pub type : TransactionType
  pub balance_state : BalanceState
  pub state_transition : String
  pub reason : String
  pub idempotency_key : String
  pub request_id : String
  pub balance_before : ℤ
  pub balance_after : ℤ
  pub currency : Option String
  pub metadata : Option Metadata
  pub escrow_id : Option String
  pub queue_item_id : Option String
  pub feature_type : Option String
  pub correlation_id : Option String

pub record EscrowHoldRequest : Type 0 where
  pub user_id : String
  pub amount : ℤ
  pub reason : String
  pub queue_item_id : String
  pub feature_type : String
  pub idempotency_key : String
  pub request_id : String
  pub metadata : Option Metadata

pub record EscrowHoldResponse : Type 0 where
  pub transaction_id : String
  pub escrow_id : String
  pub previous_balance : ℤ
  pub new_available_balance : ℤ
  pub escrow_balance : ℤ
  pub timestamp : ℕ

pub record EscrowSettleRequest : Type 0 where
  pub escrow_id : String
  pub model_id : String
  pub amount : ℤ
  pub queue_item_id : String
  pub reason : String
  pub idempotency_key : String
  pub request_id : String
  pub metadata : Option Metadata

pub record EscrowSettleResponse : Type 0 where
  pub transaction_id : String
  pub settled_amount : ℤ
  pub model_earned_balance : ℤ
  pub timestamp : ℕ

pub record EscrowRefundRequest : Type 0 where
  pub escrow_id : String
  pub user_id : String
  pub amount : ℤ
  pub queue_item_id : String
  pub reason : String
  pub idempotency_key : String
  pub request_id : String
  pub metadata : Option Metadata

pub record EscrowRefundResponse : Type 0 where
  pub transaction_id : String
  pub refunded_amount : ℤ
  pub user_available_balance : ℤ
  pub timestamp : ℕ

pub record EscrowPartialSettleRequest : Type 0 where
  pub escrow_id : String
  pub user_id : String
  pub model_id : String
  pub refund_amount : ℤ
  pub settle_amount : ℤ
  pub queue_item_id : String
  pub reason : String
  pub idempotency_key : String
  pub request_id : String
  pub metadata : Option Metadata

pub record EscrowPartialSettleResponse : Type 0 where
  pub transaction_id : String
  pub refunded_amount : ℤ
  pub settled_amount : ℤ
  pub user_available_balance : ℤ
  pub model_earned_balance : ℤ
  pub timestamp : ℕ
