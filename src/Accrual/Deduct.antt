-- ===== src/Accrual/Deduct.antt =====
-- `deductFromAvailable` of services/point-accrual.service.ts.
use red_room_rewards.Prelude.{
  ℕ, zero, suc, ℤ, ◌-ℤ◌, neg_ℤ, ltb_ℤ, leb_ℤ, String, Bool, true, false, ◌&&◌, Option, none, some,
  ◌==◌, if◌then◌else◌,
}
use red_room_rewards.Domain.{
  user, debit, available, reason_text, CreateLedgerEntryRequest, lock_conflict_after,
  insufficient_for, no_wallet_for,
}
use red_room_rewards.Store.{Mongo}
use red_room_rewards.Store.Docs.{Wallet}
use red_room_rewards.Action.{
  Result, ok, err, pure, throw, lift, atomically, ◌>>=◌, ◌>>◌, fresh_id, current_time,
}
use red_room_rewards.Service.{Service}
use red_room_rewards.Ledger.Entries.{create_entry}
use red_room_rewards.Wallet.Steps.{find_wallet, update_wallet, or_fail}
use red_room_rewards.Accrual.Requests.{AwardPointsRequest, AwardPointsResponse, PointAccrualConfig}
use red_room_rewards.Accrual.Checks.{validate_amount, validate_debit_reason, spread, check_first}

-- `{ $inc: { availableBalance: -amount, version: 1 } }`
unfoldable pub deducted_wallet : ℤ → Wallet → Wallet
deducted_wallet amount w = record w {
  available_balance = w.available_balance -ℤ amount;
  version = suc w.version;
}

-- The update's filter: the version that was read, and a balance that covers the amount.
unfoldable pub can_deduct : ℤ → ℕ → Wallet → Bool
can_deduct amount version w = w.version == version && leb_ℤ amount w.available_balance

unfoldable pub check_available : AwardPointsRequest → Wallet → Result (Unit {0})
check_available r w =
    if ltb_ℤ w.available_balance r.amount
    then err (insufficient_for r.user_id w.available_balance r.amount)
    else ok tt

unfoldable pub deduct_entry :
    PointAccrualConfig → AwardPointsRequest → String → Wallet → CreateLedgerEntryRequest
deduct_entry cfg r transaction_id w = record {
  transaction_id = some transaction_id;
  account_id = r.user_id;
  account_type = user;
  amount = neg_ℤ r.amount;
  type = debit;
  balance_state = available;
  state_transition = "available→debit";
  reason = reason_text r.reason;
  idempotency_key = r.idempotency_key;
  request_id = r.request_id;
  balance_before = w.available_balance;
  balance_after = w.available_balance -ℤ r.amount;
  currency = some cfg.default_currency;
  metadata = some (spread r.metadata);
  escrow_id = none;
  queue_item_id = none;
  feature_type = none;
  correlation_id = some transaction_id;
}

module _ (M : Mongo) (cfg : PointAccrualConfig) where
  unfoldable pub record_deduction : AwardPointsRequest → Wallet → Service M AwardPointsResponse
  record_deduction r w = do
    transaction_id ← fresh_id
    timestamp ← current_time
    create_entry M cfg.ledger_currency (deduct_entry cfg r transaction_id w)
    pure (record {
      transaction_id = transaction_id;
      amount_awarded = r.amount;
      new_balance = w.available_balance -ℤ r.amount;
      timestamp = timestamp;
    })

  -- `if (!updated) { … }`
  unfoldable pub after_deduction :
      Service M AwardPointsResponse
      → AwardPointsRequest
      → Wallet
      → Option Wallet
      → Service M AwardPointsResponse
  after_deduction again r w none = again
  after_deduction again r w (some updated) = record_deduction r w

  -- With the attempts that are left, and whether this is the first one.
  unfoldable pub deduct_attempts : ℕ → Bool → AwardPointsRequest → Service M AwardPointsResponse
  deduct_attempts zero first r = throw (lock_conflict_after cfg.max_retry_attempts)
  deduct_attempts (suc left) first r = do
    lift (validate_amount cfg r.amount)
    lift (validate_debit_reason r.reason)
    check_first M first r.idempotency_key "deduct_points" r.tenant_id
    found ← atomically (find_wallet M r.user_id)
    wallet ← lift (or_fail found (no_wallet_for r.user_id))
    lift (check_available r wallet)
    updated ←
        atomically (
          update_wallet M r.user_id (can_deduct r.amount wallet.version) (deducted_wallet r.amount))
    after_deduction (deduct_attempts left false r) r wallet updated

  unfoldable pub deduct_from_available : AwardPointsRequest → Service M AwardPointsResponse
  deduct_from_available r = deduct_attempts cfg.max_retry_attempts true r
