-- ===== src/Domain/Errors.antt =====
-- What the services throw: the classes of services/types/error.types.ts that are used, and a
-- constructor for each plain `Error`, named for its message.
use red_room_rewards.Prelude.{ℕ, ℤ, String}
use red_room_rewards.Domain.Kinds.{AccountType, EscrowStatus}

pub data Error : Type 0 where
  insufficient_balance : (required available : ℤ) → Error
  escrow_not_found : String → Error
  escrow_already_processed : String → EscrowStatus → Error
  optimistic_lock : (resource_type resource_id : String) → Error
  idempotency_key_used : Error
  authorization_required : Error
  wallet_not_found user_wallet_not_found : Error
  amounts_must_equal_escrow : Error
  -- AuthService
  authorization_expired authorization_invalid : Error
  authorization_type_invalid authorization_role_invalid : Error
  queue_item_mismatch escrow_mismatch : Error
  authorization_queue_item_mismatch authorization_escrow_mismatch : Error
  -- createEntry
  invalid_balance_state : AccountType → Error
  pii_in_field : String → Error
  email_in_field : String → Error
  correlation_id_required : Error
  reason_required : Error
  -- creditPoints, deductPoints and the accrual and redemption services
  amount_not_positive : ℤ → Error
  amount_below_minimum : ℤ → Error
  amount_above_maximum : ℤ → Error
  insufficient_for : String → (available requested : ℤ) → Error
  no_wallet_for : String → Error
  invalid_reason : String → Error
  invalid_feature_type : String → Error
  lock_conflict_after : ℕ → Error
  -- MongoDB's error 11000, with the path of the index, and Mongoose's ValidationError
  duplicate_key : String → Error
  validation_failed : String → Error
  -- what a handler of the ingest worker throws, with its message
  handler_failed : String → Error
