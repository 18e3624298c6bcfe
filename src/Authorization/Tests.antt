-- ===== src/Authorization/Tests.antt =====
-- Runs of services/auth.service.ts with a signature that keeps its secret beside the payload.
use red_room_rewards.Prelude.{
  is_empty, ℕ, ltb, pos, String, str_eq, str_eq_iff, ◌≡◌, refl, ◌↔◌, Bool, true, false, ◌&&◌, [],
  if◌then◌else◌,
}
use red_room_rewards.Domain.{
  performance_completed, authorization_expired, authorization_type_invalid,
}
use red_room_rewards.Action.{ok, err}
use red_room_rewards.Authorization.{
  Algorithm, hs256, hs384, hs512, UserRole, QueueAuthorizationPayload, Verdict, valid, expired,
  malformed, Jwt, AuthServiceConfig, QueueSettlementAuthorization, QueueRefundAuthorization,
  QueuePartialSettlementAuthorization,
}
use red_room_rewards.Authorization.Service.{
  generate_settlement_authorization, generate_refund_authorization,
  generate_partial_settlement_authorization, validate_settlement_authorization,
  validate_refund_authorization, validate_partial_settlement_authorization, has_role, has_any_role,
}
use red_room_rewards.Authorization.Verdicts.{Grants, validate_iff}
use red_room_rewards.Authorization.Issued.{in_time, validate-generate}

record Token : Type 0 where
  payload : QueueAuthorizationPayload
  secret : String
  algorithm : Algorithm

abbrev same_algorithm : Algorithm → Algorithm → Bool
same_algorithm hs256 hs256 = true
same_algorithm hs384 hs384 = true
same_algorithm hs512 hs512 = true
same_algorithm _ _ = false

same_algorithm_refl : (a : Algorithm) → same_algorithm a a ≡ true
same_algorithm_refl hs256 = refl
same_algorithm_refl hs384 = refl
same_algorithm_refl hs512 = refl

abbrev check : Token → String → Algorithm → ℕ → Verdict
check t secret a now =
    if str_eq t.secret secret && same_algorithm t.algorithm a
    then (if ltb now t.payload.exp then valid t.payload else expired)
    else malformed

abbrev sealed : QueueAuthorizationPayload → String → Algorithm → Token
sealed p secret a = record { payload = p; secret = secret; algorithm = a }

check-sealed :
    (p : QueueAuthorizationPayload) (secret : String) (a : Algorithm) (now : ℕ)
    → is_empty secret ≡ false
    → check (sealed p secret a) secret a now ≡ (if ltb now p.exp then valid p else expired)
check-sealed p secret a now given =
    rw ((str_eq_iff secret secret).1 refl, same_algorithm_refl a) refl

abbrev jwt : Jwt
jwt = record { Token = Token; sign = sealed; verify = check; verify-sign = check-sealed }

abbrev config : AuthServiceConfig
config = record { jwt_secret = "secret"; token_expiry_seconds = 300; algorithm = hs256 }

abbrev settlement : QueueSettlementAuthorization Token
settlement =
    generate_settlement_authorization jwt config 5000 "q1" "e1" "m1" (pos 100) performance_completed

abbrev refund : QueueRefundAuthorization Token
refund =
    generate_refund_authorization jwt config 5000 "q1" "e1" "u1" (pos 100) performance_completed

abbrev parts : QueuePartialSettlementAuthorization Token
parts =
    generate_partial_settlement_authorization jwt config 5000 "q1" "e1" "u1" "m1" (pos 40) (pos 60)
      performance_completed

-- A token of a settlement is not one of a refund.
other_use :
    validate_refund_authorization jwt config 6000
      (record refund { token = settlement.token })
      "q1"
      "e1"
    ≡ err authorization_type_invalid
unfolding validate_refund_authorization generate_settlement_authorization
    generate_refund_authorization
other_use = refl

too_late :
    validate_settlement_authorization jwt config 305000 settlement "q1" "e1"
    ≡ err authorization_expired
unfolding validate_settlement_authorization generate_settlement_authorization
too_late = refl

-- The queue service has its own role only, and an administrator every role.
roles :
    (has_role settlement.token.payload UserRole.model ≡ false)
    × (has_any_role (record settlement.token.payload { role = UserRole.admin }) [] ≡ true)
unfolding has_role has_any_role generate_settlement_authorization
roles = (refl, refl)

validate-generate_example :
    (validate_settlement_authorization jwt config 6000 settlement "q1" "e1"
      ≡ in_time config 5000 6000)
    × (validate_refund_authorization jwt config 6000 refund "q1" "e1" ≡ in_time config 5000 6000)
    × (validate_partial_settlement_authorization jwt config 6000 parts "q1" "e1"
        ≡ in_time config 5000 6000)
validate-generate_example =
    validate-generate jwt config 5000 6000 "q1" "e1" "u1" "m1" (pos 100) (pos 40) (pos 60)
      performance_completed refl

validate_iff_example :
    ((validate_settlement_authorization jwt config 6000 settlement "q1" "e1" ≡ ok tt) ↔ (
      Grants jwt config 6000 settlement.token "queue_settlement" "q1" "e1"
      × (settlement.queue_item_id ≡ "q1")
      × (settlement.escrow_id ≡ "e1")))
    × ((validate_refund_authorization jwt config 6000 refund "q1" "e1" ≡ ok tt) ↔ (
        Grants jwt config 6000 refund.token "queue_refund" "q1" "e1"
        × (refund.queue_item_id ≡ "q1")
        × (refund.escrow_id ≡ "e1")))
    × ((validate_partial_settlement_authorization jwt config 6000 parts "q1" "e1" ≡ ok tt) ↔ (
        Grants jwt config 6000 parts.token "queue_partial_settlement" "q1" "e1"
        × (parts.queue_item_id ≡ "q1")
        × (parts.escrow_id ≡ "e1")))
validate_iff_example = validate_iff jwt config 6000 "q1" "e1" settlement refund parts
