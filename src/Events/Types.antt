-- ===== src/Events/Types.antt =====
-- events/types.ts: the events, the subscriptions and the answer to a publication. Every event is its
-- base fields and a payload, whose constructor is the discriminator `eventType`. Dates are
-- milliseconds.
use red_room_rewards.Prelude.{ℕ, ℤ, String, Bool, true, false, List, Option}
use red_room_rewards.Domain.{AccountType, TransactionType, BalanceState, Metadata}

pub data WalletEventType : Type 0 where
  balance_updated escrow_held escrow_settled : WalletEventType
  escrow_refunded escrow_partial_settled ledger_entry_created : WalletEventType

abbrev pub same_event_type : WalletEventType → WalletEventType → Bool
same_event_type WalletEventType.balance_updated WalletEventType.balance_updated = true
same_event_type WalletEventType.escrow_held WalletEventType.escrow_held = true
same_event_type WalletEventType.escrow_settled WalletEventType.escrow_settled = true
same_event_type WalletEventType.escrow_refunded WalletEventType.escrow_refunded = true
same_event_type WalletEventType.escrow_partial_settled WalletEventType.escrow_partial_settled = true
same_event_type WalletEventType.ledger_entry_created WalletEventType.ledger_entry_created = true
same_event_type _ _ = false

pub record BaseRewardEvent : Type 0 where
  pub event_id : String
  pub idempotency_key : String
  pub timestamp : ℕ
  pub correlation_id : Option String
  pub source : String
  pub version : String

pub record BalanceUpdatedEvent : Type 0 where
  pub account_id : String
  pub account_type : AccountType
  pub balance_state : BalanceState
  pub balance_before : ℤ
  pub balance_after : ℤ
  pub change_amount : ℤ
  pub reason : String
  pub transaction_id : String
  pub ledger_entry_id : String
  pub metadata : Option Metadata

pub record EscrowHeldEvent : Type 0 where
  pub user_id : String
  pub escrow_id : String
  pub amount : ℤ
  pub reason : String
  pub queue_item_id : String
  pub feature_type : String
  pub transaction_id : String
  pub user_available_balance : ℤ
  pub user_escrow_balance : ℤ
  pub metadata : Option Metadata

pub record EscrowSettledEvent : Type 0 where
  pub user_id : String
  pub model_id : String
  pub escrow_id : String
  pub amount : ℤ
  pub reason : String
  pub queue_item_id : String
  pub transaction_id : String
  pub model_earned_balance : ℤ
  pub metadata : Option Metadata

pub record EscrowRefundedEvent : Type 0 where
  pub user_id : String
  pub escrow_id : String
  pub amount : ℤ
  pub reason : String
  pub queue_item_id : String
  pub transaction_id : String
  pub user_available_balance : ℤ
  pub user_escrow_balance : ℤ
  pub metadata : Option Metadata

pub record EscrowPartialSettledEvent : Type 0 where
  pub user_id : String
  pub model_id : String
  pub escrow_id : String
  pub refund_amount : ℤ
  pub settle_amount : ℤ
  pub reason : String
  pub queue_item_id : String
  pub transaction_id : String
  pub user_available_balance : ℤ
  pub user_escrow_balance : ℤ
  pub model_earned_balance : ℤ
  pub metadata : Option Metadata

pub record LedgerEntryCreatedEvent : Type 0 where
  pub entry_id : String
  pub transaction_id : String
  pub account_id : String
  pub account_type : AccountType
  pub amount : ℤ
  pub transaction_type : TransactionType
  pub balance_state : BalanceState
  pub state_transition : String
  pub reason : String
  pub balance_before : ℤ
  pub balance_after : ℤ
  pub escrow_id : Option String
  pub queue_item_id : Option String
  pub metadata : Option Metadata

pub data Payload : Type 0 where
  balance_updated : BalanceUpdatedEvent → Payload
  escrow_held : EscrowHeldEvent → Payload
  escrow_settled : EscrowSettledEvent → Payload
  escrow_refunded : EscrowRefundedEvent → Payload
  escrow_partial_settled : EscrowPartialSettledEvent → Payload
  ledger_entry_created : LedgerEntryCreatedEvent → Payload

pub record RewardEvent : Type 0 where
  pub base : BaseRewardEvent
  pub payload : Payload

abbrev pub type_of : Payload → WalletEventType
type_of (Payload.balance_updated e) = WalletEventType.balance_updated
type_of (Payload.escrow_held e) = WalletEventType.escrow_held
type_of (Payload.escrow_settled e) = WalletEventType.escrow_settled
type_of (Payload.escrow_refunded e) = WalletEventType.escrow_refunded
type_of (Payload.escrow_partial_settled e) = WalletEventType.escrow_partial_settled
type_of (Payload.ledger_entry_created e) = WalletEventType.ledger_entry_created

-- `event.eventType`
abbrev pub event_type : RewardEvent → WalletEventType
event_type e = type_of e.payload

-- What a subscriber's function answers, by the number of its attempts at the event that have failed:
-- nothing, or the message of the error it throws. The function is the subscriber's own code.
abbrev pub EventHandler : Type 0
EventHandler = RewardEvent → ℕ → Option String

pub record EventSubscription : Type 0 where
  pub subscriber_id : String
  pub event_types : List WalletEventType
  pub handler : EventHandler
  pub priority : Option ℤ

pub record HandlerError : Type 0 where
  pub subscriber_id : String
  pub error : String

pub record EventPublishResult : Type 0 where
  pub event_id : String
  pub success : Bool
  pub handlers_notified : ℕ
  pub errors : Option (List HandlerError)
