-- ===== src/Authorization/Issued.antt =====
-- What becomes of the authorizations that services/auth.service.ts generates.
use red_room_rewards.Prelude.{
  is_empty, false, ℕ, ltb, ℤ, String, str_eq_iff, Bool, true, false, ◌≡◌, refl, ◌∙◌, ap,
  if◌then◌else◌,
}
use red_room_rewards.Domain.{TransactionReason, authorization_expired}
use red_room_rewards.Action.{Result, ok, err}
use red_room_rewards.Authorization.{
  UserRole, QueueAuthorizationPayload, valid, expired, Jwt, AuthServiceConfig, seconds, expiry,
  settlement_payload, refund_payload, partial_payload,
}
use red_room_rewards.Authorization.Service.{
  check_payload, and_then, read_verdict, generate_settlement_authorization,
  generate_refund_authorization, generate_partial_settlement_authorization,
  validate_settlement_authorization, validate_refund_authorization,
  validate_partial_settlement_authorization, verify_authorization_token,
}

-- What a validation of an authorization says that was generated for this use, item and escrow.
abbrev pub in_time : AuthServiceConfig → (issued_at now : ℕ) → Result (Unit {0})
in_time cfg issued_at now =
    if ltb (seconds now) (seconds (expiry cfg issued_at)) then ok tt else err authorization_expired

verdict_in_time :
    (b : Bool) (type item escrow : String) (p : QueueAuthorizationPayload)
    → p.type ≡ type
    → p.role ≡ UserRole.queue_service
    → p.queue_item_id ≡ item
    → p.escrow_id ≡ escrow
    → and_then
        (read_verdict (if b then valid p else expired))
        (check_payload type item escrow item escrow)
      ≡ (if b then ok tt else err authorization_expired)
unfolding check_payload
verdict_in_time false type item escrow p t r i e = refl
verdict_in_time true type item escrow p t r i e =
    rw
      (
        (str_eq_iff _ _).1 t,
        r,
        (str_eq_iff _ _).1 i,
        (str_eq_iff _ _).1 e,
        (str_eq_iff item item).1 refl,
        (str_eq_iff escrow escrow).1 refl,
      )
      refl

module _ (J : Jwt) (cfg : AuthServiceConfig) where
  signed_in_time :
      (issued_at now : ℕ) (type item escrow : String) (p : QueueAuthorizationPayload)
      → is_empty cfg.jwt_secret ≡ false
      → p.exp ≡ seconds (expiry cfg issued_at)
      → p.type ≡ type
      → p.role ≡ UserRole.queue_service
      → p.queue_item_id ≡ item
      → p.escrow_id ≡ escrow
      → and_then
          (verify_authorization_token J cfg now (J.sign p cfg.jwt_secret cfg.algorithm))
          (check_payload type item escrow item escrow)
        ≡ in_time cfg issued_at now
  unfolding verify_authorization_token
  signed_in_time issued_at now type item escrow p given x t r i e =
      rw (J.verify-sign p cfg.jwt_secret cfg.algorithm (seconds now) given) (
        verdict_in_time _ type item escrow p t r i e
        ∙ ap (λ n. if ltb (seconds now) n then ok tt else err authorization_expired) x)

-- With a secret that is not empty, an authorization that the service generates is accepted for its item and its escrow, by the
-- validation of its use, until the second of its expiry begins, and is refused as expired from then on.
pub validate-generate :
    (J : Jwt) (cfg : AuthServiceConfig) (issued_at now : ℕ) (item escrow user model : String)
    (amount refund settle : ℤ) (reason : TransactionReason)
    → is_empty cfg.jwt_secret ≡ false
    → (validate_settlement_authorization J cfg now
          (generate_settlement_authorization J cfg issued_at item escrow model amount reason)
          item
          escrow
        ≡ in_time cfg issued_at now)
      × (validate_refund_authorization J cfg now
            (generate_refund_authorization J cfg issued_at item escrow user amount reason)
            item
            escrow
          ≡ in_time cfg issued_at now)
      × (validate_partial_settlement_authorization J cfg now
            (generate_partial_settlement_authorization J cfg issued_at item escrow user model refund
              settle reason)
            item
            escrow
          ≡ in_time cfg issued_at now)
unfolding validate_settlement_authorization validate_refund_authorization
    validate_partial_settlement_authorization generate_settlement_authorization
    generate_refund_authorization generate_partial_settlement_authorization
validate-generate J cfg issued_at now item escrow user model amount refund settle reason given = (
  signed_in_time J cfg issued_at now _ item escrow
      (settlement_payload cfg issued_at item escrow model amount reason) given refl refl refl refl
      refl,
  signed_in_time J cfg issued_at now _ item escrow
      (refund_payload cfg issued_at item escrow user amount reason) given refl refl refl refl refl,
  signed_in_time J cfg issued_at now _ item escrow
      (partial_payload cfg issued_at item escrow user model refund settle reason) given refl refl
      refl refl refl,
)
