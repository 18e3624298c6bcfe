-- ===== src/Domain/Reasons.antt =====
-- `TransactionReason` of wallets/types/domain.types.ts, and the texts that it stands for.
use red_room_rewards.Prelude.{String, ◌≡◌, refl, false, is_empty}

pub data TransactionReason : Type 0 where
  user_signup_bonus referral_bonus promotional_award admin_credit : TransactionReason
  chip_menu_purchase spin_wheel_play performance_request : TransactionReason
  performance_completed partial_performance : TransactionReason
  performance_abandoned user_disconnected model_initiated_refund : TransactionReason
  rope_drop_timeout admin_refund : TransactionReason
  point_expiry admin_debit chargeback : TransactionReason

abbrev pub reason_text : TransactionReason → String
reason_text user_signup_bonus = "user_signup_bonus"
reason_text referral_bonus = "referral_bonus"
reason_text promotional_award = "promotional_award"
reason_text admin_credit = "admin_credit"
reason_text chip_menu_purchase = "chip_menu_purchase"
reason_text spin_wheel_play = "spin_wheel_play"
reason_text performance_request = "performance_request"
reason_text performance_completed = "performance_completed"
reason_text partial_performance = "partial_performance"
reason_text performance_abandoned = "performance_abandoned"
reason_text user_disconnected = "user_disconnected"
reason_text model_initiated_refund = "model_initiated_refund"
reason_text rope_drop_timeout = "rope_drop_timeout"
reason_text admin_refund = "admin_refund"
reason_text point_expiry = "point_expiry"
reason_text admin_debit = "admin_debit"
reason_text chargeback = "chargeback"

pub reason_text-given : (reason : TransactionReason) → is_empty (reason_text reason) ≡ false
reason_text-given user_signup_bonus = refl
reason_text-given referral_bonus = refl
reason_text-given promotional_award = refl
reason_text-given admin_credit = refl
reason_text-given chip_menu_purchase = refl
reason_text-given spin_wheel_play = refl
reason_text-given performance_request = refl
reason_text-given performance_completed = refl
reason_text-given partial_performance = refl
reason_text-given performance_abandoned = refl
reason_text-given user_disconnected = refl
reason_text-given model_initiated_refund = refl
reason_text-given rope_drop_timeout = refl
reason_text-given admin_refund = refl
reason_text-given point_expiry = refl
reason_text-given admin_debit = refl
reason_text-given chargeback = refl
