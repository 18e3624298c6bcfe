-- ===== src/WalletEvents.antt =====
-- The events that the wallet service hands to the publisher: the parameters of the methods of
-- events/wallet-event-publisher.ts.
use red_room_rewards.Prelude.{ℤ, String, Option}
use red_room_rewards.Domain.{Metadata}

pub record EscrowHeld : Type 0 where
  pub user_id : String
  pub escrow_id : String
  pub amount : ℤ
  pub reason : String
  pub queue_item_id : String
  pub feature_type : String
  pub transaction_id : String
  pub user_available_balance : ℤ
  pub user_escrow_balance : ℤ
  pub idempotency_key : String
  pub metadata : Option Metadata

pub record EscrowSettled : Type 0 where
  pub user_id : String
  pub model_id : String
  pub escrow_id : String
  pub amount : ℤ
  pub reason : String
  pub queue_item_id : String
  pub transaction_id : String
  pub model_earned_balance : ℤ
  pub idempotency_key : String
  pub metadata : Option Metadata

pub record EscrowRefunded : Type 0 where
  pub user_id : String
  pub escrow_id : String
  pub amount : ℤ
  pub reason : String
  pub queue_item_id : String
  pub transaction_id : String
  pub user_available_balance : ℤ
  pub user_escrow_balance : ℤ
  pub idempotency_key : String
  pub metadata : Option Metadata

pub record EscrowPartialSettled : Type 0 where
  pub user_id : String
  pub model_id : String
  pub escrow_id : String
  pub refund_amount : ℤ
  pub settle_amount : ℤ
  pub reason : String
  pub queue_item_id : String
  pub transaction_id : String
  pub user_available_balance : ℤ
  pub user_escrow_balance : ℤ
  pub model_earned_balance : ℤ
  pub idempotency_key : String
  pub metadata : Option Metadata

pub data WalletEvent : Type 0 where
  escrow_held : EscrowHeld → WalletEvent
  escrow_settled : EscrowSettled → WalletEvent
  escrow_refunded : EscrowRefunded → WalletEvent
  escrow_partial_settled : EscrowPartialSettled → WalletEvent
