-- ===== src/Accrual/Requests.antt =====
-- `AwardPointsRequest`, `AwardPointsResponse` and `PointAccrualConfig` of
-- services/point-accrual.service.ts, without the back-off, which only delays, and the settings on
-- expiration, which the service does not read; with the default currency of its ledger service.
use red_room_rewards.Prelude.{ℕ, ℤ, String, Option}
use red_room_rewards.Domain.{TransactionReason, Metadata}

-- `expires_at` is the text that `toISOString` makes of the date.
pub record AwardPointsRequest : Type 0 where
  pub user_id : String
  pub amount : ℤ
  pub reason : TransactionReason
  pub idempotency_key : String
  pub request_id : String
  pub tenant_id : String
  pub metadata : Option Metadata
  pub expires_at : Option String

pub record AwardPointsResponse : Type 0 where
  pub transaction_id : String
  pub amount_awarded : ℤ
  pub new_balance : ℤ
  pub timestamp : ℕ

pub record PointAccrualConfig : Type 0 where
  pub default_currency : String
  pub max_award_amount : ℤ
  pub min_award_amount : ℤ
  pub max_retry_attempts : ℕ
  pub ledger_currency : String
