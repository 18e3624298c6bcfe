-- ===== src/Authorization/Service.antt =====
-- The methods of the class `AuthService` of services/auth.service.ts.
use red_room_rewards.Prelude.{ℕ, ℤ, String, str_eq, Bool, false, ◌||◌, List, [], ◌∷◌, if◌then◌else◌}
use red_room_rewards.Domain.{
  TransactionReason, authorization_expired, authorization_invalid, authorization_type_invalid,
  authorization_role_invalid, queue_item_mismatch, escrow_mismatch,
  authorization_queue_item_mismatch, authorization_escrow_mismatch,
}
use red_room_rewards.Action.{Result, ok, err}
use red_room_rewards.Authorization.{
  AuthServiceConfig, Jwt, QueueAuthorizationPayload, QueuePartialSettlementAuthorization,
  QueueRefundAuthorization, QueueSettlementAuthorization, UserRole, Verdict, expiry,
  partial_payload, refund_payload, same_role, seconds, settlement_payload, expired, malformed,
  valid,
}

-- The checks of the token's payload, and then of the authorization around it, that the three
-- validations make.
unfoldable pub check_payload :
    String
    → (expected_item expected_escrow item escrow : String) → QueueAuthorizationPayload
    → Result (Unit {0})
check_payload type expected_item expected_escrow item escrow p =
    if str_eq p.type type
    then (if same_role p.role UserRole.queue_service
        then (if str_eq p.queue_item_id expected_item
            then (if str_eq p.escrow_id expected_escrow
                then (if str_eq item expected_item
                    then (if str_eq escrow expected_escrow
                        then ok tt
                        else err authorization_escrow_mismatch)
                    else err authorization_queue_item_mismatch)
                else err escrow_mismatch)
            else err queue_item_mismatch)
        else err authorization_role_invalid)
    else err authorization_type_invalid

-- The result of the verification goes on to the checks, or ends the validation.
abbrev pub and_then :
    Result QueueAuthorizationPayload
    → (QueueAuthorizationPayload → Result (Unit {0}))
    → Result (Unit {0})
and_then (ok p) f = f p
and_then (err x) f = err x

abbrev pub read_verdict : Verdict → Result QueueAuthorizationPayload
read_verdict (valid p) = ok p
read_verdict expired = err authorization_expired
read_verdict malformed = err authorization_invalid

module _ (J : Jwt) (cfg : AuthServiceConfig) where
  abbrev pub signed : QueueAuthorizationPayload → J.Token
  signed p = J.sign p cfg.jwt_secret cfg.algorithm

  unfoldable pub generate_settlement_authorization :
      ℕ
      → (queue_item_id escrow_id model_id : String) → ℤ
      → TransactionReason
      → QueueSettlementAuthorization J.Token
  unfolding settlement_payload expiry
  generate_settlement_authorization issued_at queue_item_id escrow_id model_id amount reason =
      record {
        queue_item_id = queue_item_id;
        token =
            signed
              (settlement_payload cfg issued_at queue_item_id escrow_id model_id amount reason);
        escrow_id = escrow_id;
        model_id = model_id;
        amount = amount;
        reason = reason;
        issued_at = issued_at;
        expires_at = expiry cfg issued_at;
      }

  unfoldable pub generate_refund_authorization :
      ℕ
      → (queue_item_id escrow_id user_id : String) → ℤ
      → TransactionReason
      → QueueRefundAuthorization J.Token
  unfolding refund_payload expiry
  generate_refund_authorization issued_at queue_item_id escrow_id user_id amount reason = record {
    queue_item_id = queue_item_id;
    token = signed (refund_payload cfg issued_at queue_item_id escrow_id user_id amount reason);
    escrow_id = escrow_id;
    user_id = user_id;
    amount = amount;
    reason = reason;
    issued_at = issued_at;
    expires_at = expiry cfg issued_at;
  }

  unfoldable pub generate_partial_settlement_authorization :
      ℕ
      → (queue_item_id escrow_id user_id model_id : String) → (refund settle : ℤ)
      → TransactionReason
      → QueuePartialSettlementAuthorization J.Token
  unfolding partial_payload expiry
  generate_partial_settlement_authorization issued_at item escrow user_id model_id refund settle
        reason =
      record {
        queue_item_id = item;
        token =
            signed
              (partial_payload cfg issued_at item escrow user_id model_id refund settle reason);
        escrow_id = escrow;
        user_id = user_id;
        model_id = model_id;
        refund_amount = refund;
        settle_amount = settle;
        reason = reason;
        issued_at = issued_at;
        expires_at = expiry cfg issued_at;
      }

  unfoldable pub verify_authorization_token : ℕ → J.Token → Result QueueAuthorizationPayload
  verify_authorization_token now token =
      read_verdict (J.verify token cfg.jwt_secret cfg.algorithm (seconds now))

  unfoldable pub validate_settlement_authorization :
      ℕ
      → QueueSettlementAuthorization J.Token
      → (expected_item expected_escrow : String) → Result (Unit {0})
  unfolding verify_authorization_token check_payload
  validate_settlement_authorization now a expected_item expected_escrow =
      and_then (verify_authorization_token now a.token)
        (check_payload "queue_settlement" expected_item expected_escrow a.queue_item_id a.escrow_id)

  unfoldable pub validate_refund_authorization :
      ℕ
      → QueueRefundAuthorization J.Token
      → (expected_item expected_escrow : String) → Result (Unit {0})
  unfolding verify_authorization_token check_payload
  validate_refund_authorization now a expected_item expected_escrow =
      and_then (verify_authorization_token now a.token)
        (check_payload "queue_refund" expected_item expected_escrow a.queue_item_id a.escrow_id)

  unfoldable pub validate_partial_settlement_authorization :
      ℕ
      → QueuePartialSettlementAuthorization J.Token
      → (expected_item expected_escrow : String) → Result (Unit {0})
  unfolding verify_authorization_token check_payload
  validate_partial_settlement_authorization now a expected_item expected_escrow =
      and_then (verify_authorization_token now a.token) (
        check_payload "queue_partial_settlement" expected_item expected_escrow a.queue_item_id
          a.escrow_id)

unfoldable pub has_role : QueueAuthorizationPayload → UserRole → Bool
has_role p required = same_role p.role UserRole.admin || same_role p.role required

-- `requiredRoles.includes(payload.role)`
abbrev pub includes_role : List UserRole → UserRole → Bool
includes_role [] r = false
includes_role (x ∷ xs) r = same_role x r || includes_role xs r

unfoldable pub has_any_role : QueueAuthorizationPayload → List UserRole → Bool
has_any_role p required = same_role p.role UserRole.admin || includes_role required p.role
