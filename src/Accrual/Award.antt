-- ===== src/Accrual/Award.antt =====
-- `awardPoints` of services/point-accrual.service.ts, and the awards that are calls of it.
use red_room_rewards.Prelude.{
  ℕ, zero, suc, ℤ, ◌+ℤ◌, String, Bool, true, false, [], ◌∷◌, Option, none, some, ◌==◌, suffixed,
}
use red_room_rewards.Domain.{
  user, credit, available, user_signup_bonus, referral_bonus, promotional_award, admin_credit,
  reason_text, text, CreateLedgerEntryRequest, lock_conflict_after,
}
use red_room_rewards.Store.{Mongo}
use red_room_rewards.Store.Docs.{Wallet}
use red_room_rewards.Action.{pure, throw, lift, atomically, ◌>>=◌, ◌>>◌, fresh_id, current_time}
use red_room_rewards.Service.{Service}
use red_room_rewards.Ledger.Entries.{create_entry}
use red_room_rewards.Wallet.Steps.{update_wallet, get_or_create_wallet}
use red_room_rewards.Accrual.Requests.{AwardPointsRequest, AwardPointsResponse, PointAccrualConfig}
use red_room_rewards.Accrual.Checks.{
  validate_amount, validate_earning_reason, with_field, spread, expiry_value, check_first,
}

-- `{ $inc: { availableBalance: amount, version: 1 } }`
unfoldable pub awarded_wallet : ℤ → Wallet → Wallet
awarded_wallet amount w = record w {
  available_balance = w.available_balance +ℤ amount;
  version = suc w.version;
}

unfoldable pub award_entry :
    PointAccrualConfig → AwardPointsRequest → String → Wallet → CreateLedgerEntryRequest
award_entry cfg r transaction_id w = record {
  transaction_id = some transaction_id;
  account_id = r.user_id;
  account_type = user;
  amount = r.amount;
  type = credit;
  balance_state = available;
  state_transition = "none→available";
  reason = reason_text r.reason;
  idempotency_key = r.idempotency_key;
  request_id = r.request_id;
  balance_before = w.available_balance;
  balance_after = w.available_balance +ℤ r.amount;
  currency = some cfg.default_currency;
  metadata = some (with_field "expiresAt" (expiry_value r.expires_at) (spread r.metadata));
  escrow_id = none;
  queue_item_id = none;
  feature_type = none;
  correlation_id = none;
}

module _ (M : Mongo) (cfg : PointAccrualConfig) where
  unfoldable pub record_award : AwardPointsRequest → Wallet → Service M AwardPointsResponse
  record_award r w = do
    transaction_id ← fresh_id
    timestamp ← current_time
    create_entry M cfg.ledger_currency (award_entry cfg r transaction_id w)
    pure (record {
      transaction_id = transaction_id;
      amount_awarded = r.amount;
      new_balance = w.available_balance +ℤ r.amount;
      timestamp = timestamp;
    })

  -- `if (!updated) { … }`
  unfoldable pub after_award :
      Service M AwardPointsResponse
      → AwardPointsRequest
      → Wallet
      → Option Wallet
      → Service M AwardPointsResponse
  after_award again r w none = again
  after_award again r w (some updated) = record_award r w

  -- With the attempts that are left, and whether this is the first one.
  unfoldable pub award_attempts : ℕ → Bool → AwardPointsRequest → Service M AwardPointsResponse
  award_attempts zero first r = throw (lock_conflict_after cfg.max_retry_attempts)
  award_attempts (suc left) first r = do
    lift (validate_amount cfg r.amount)
    lift (validate_earning_reason r.reason)
    check_first M first r.idempotency_key "award_points" r.tenant_id
    wallet ← get_or_create_wallet M cfg.default_currency r.user_id
    updated ←
        atomically
          (update_wallet M r.user_id (λ w. w.version == wallet.version) (awarded_wallet r.amount))
    after_award (award_attempts left false r) r wallet updated

  unfoldable pub award_points : AwardPointsRequest → Service M AwardPointsResponse
  award_points r = award_attempts cfg.max_retry_attempts true r

  unfoldable pub award_signup_bonus :
      (user_id : String) → ℤ → (request_id tenant_id : String) → Service M AwardPointsResponse
  award_signup_bonus user_id bonus_amount request_id tenant_id = award_points (record {
    user_id = user_id;
    amount = bonus_amount;
    reason = user_signup_bonus;
    idempotency_key = suffixed "signup-bonus-" user_id;
    request_id = request_id;
    tenant_id = tenant_id;
    metadata = some (("bonusType", text "signup") ∷ []);
    expires_at = none;
  })

  unfoldable pub award_referral_bonus :
      (referrer_id referred_user_id : String)
      → ℤ
      → (request_id tenant_id : String) → Service M AwardPointsResponse
  award_referral_bonus referrer_id referred_user_id bonus_amount request_id tenant_id =
      award_points (record {
        user_id = referrer_id;
        amount = bonus_amount;
        reason = referral_bonus;
        idempotency_key =
            suffixed "referral-bonus-" (suffixed referrer_id (suffixed "-" referred_user_id));
        request_id = request_id;
        tenant_id = tenant_id;
        metadata =
            some (("bonusType", text "referral") ∷ ("referredUserId", text referred_user_id) ∷ []);
        expires_at = none;
      })

  unfoldable pub award_promotional_points :
      (user_id : String)
      → ℤ
      → (promotion_id request_id tenant_id : String) → Option String
      → Service M AwardPointsResponse
  award_promotional_points user_id amount promotion_id request_id tenant_id expires_at =
      award_points (record {
        user_id = user_id;
        amount = amount;
        reason = promotional_award;
        idempotency_key = suffixed "promo-" (suffixed promotion_id (suffixed "-" user_id));
        request_id = request_id;
        tenant_id = tenant_id;
        metadata =
            some (("promotionId", text promotion_id) ∷ ("bonusType", text "promotional") ∷ []);
        expires_at = expires_at;
      })

  unfoldable pub admin_credit_points :
      (user_id : String)
      → ℤ
      → (admin_id reason request_id tenant_id : String) → Service M AwardPointsResponse
  admin_credit_points user_id amount admin_id reason request_id tenant_id = award_points (record {
    user_id = user_id;
    amount = amount;
    reason = admin_credit;
    idempotency_key =
        suffixed "admin-credit-"
          (suffixed admin_id (suffixed "-" (suffixed user_id (suffixed "-" request_id))));
    request_id = request_id;
    tenant_id = tenant_id;
    metadata = some (
        ("adminId", text admin_id)
        ∷ ("adminReason", text reason)
        ∷ ("operationType", text "admin_credit")
        ∷ []);
    expires_at = none;
  })
