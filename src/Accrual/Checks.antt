-- ===== src/Accrual/Checks.antt =====
-- `validateAmount`, `validateEarningReason` and `validateDebitReason`, the check of the idempotency
-- key, and the metadata of the ledger entries, in services/point-accrual.service.ts.
use red_room_rewards.Prelude.{
  ℤ, pos, ltb_ℤ, leb_ℤ, String, Bool, true, false, [], ◌∷◌, Option, none, some, str_eq,
  if◌then◌else◌,
}
use red_room_rewards.Domain.{
  TransactionReason, user_signup_bonus, referral_bonus, promotional_award, admin_credit,
  admin_debit, point_expiry, reason_text, Metadata, MetaValue, text, other, amount_below_minimum,
  amount_above_maximum, amount_not_positive, invalid_reason, idempotency_key_used,
}
use red_room_rewards.Store.{Mongo}
use red_room_rewards.Action.{Result, ok, err, pure, lift, ◌>>=◌}
use red_room_rewards.Service.{Service}
use red_room_rewards.Ledger.Idempotency.{check_idempotency}
use red_room_rewards.Accrual.Requests.{PointAccrualConfig}

-- Every integer is finite.
unfoldable pub validate_amount : PointAccrualConfig → ℤ → Result (Unit {0})
validate_amount cfg amount =
    if ltb_ℤ amount cfg.min_award_amount
    then err (amount_below_minimum cfg.min_award_amount)
    else if ltb_ℤ cfg.max_award_amount amount
    then err (amount_above_maximum cfg.max_award_amount)
    else if leb_ℤ amount (pos 0)
    then err (amount_not_positive amount)
    else ok tt

abbrev pub is_earning : TransactionReason → Bool
is_earning user_signup_bonus = true
is_earning referral_bonus = true
is_earning promotional_award = true
is_earning admin_credit = true
is_earning _ = false

abbrev pub is_debit : TransactionReason → Bool
is_debit admin_debit = true
is_debit point_expiry = true
is_debit _ = false

unfoldable pub validate_earning_reason : TransactionReason → Result (Unit {0})
validate_earning_reason reason =
    if is_earning reason then ok tt else err (invalid_reason (reason_text reason))

unfoldable pub validate_debit_reason : TransactionReason → Result (Unit {0})
validate_debit_reason reason =
    if is_debit reason then ok tt else err (invalid_reason (reason_text reason))

-- A field of an object literal: it takes the place of an earlier one of the same name.
unfoldable pub with_field : String → MetaValue → Metadata → Metadata
with_field key val [] = (key, val) ∷ []
with_field key val ((k, v) ∷ m) =
    let rest = with_field key val m in if str_eq k key then (key, val) ∷ m else (k, v) ∷ rest

-- `...request.metadata`
abbrev pub spread : Option Metadata → Metadata
spread none = []
spread (some m) = m

-- `request.expiresAt?.toISOString()`
abbrev pub expiry_value : Option String → MetaValue
expiry_value none = other
expiry_value (some t) = text t

abbrev pub unless_seen : Bool → Result (Unit {0})
unless_seen true = err idempotency_key_used
unless_seen false = ok tt

module _ (M : Mongo) where
  -- `if (retryCount === 0) { … }`
  unfoldable pub check_first : Bool → String → String → String → Service M (Unit {0})
  check_first false key operation tenant = pure tt
  check_first true key operation tenant = do
    exists ← check_idempotency M key operation tenant
    lift (unless_seen exists)
