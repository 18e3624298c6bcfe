-- ===== src/Authorization.antt =====
-- services/auth.service.ts: the authorization tokens of the queue. Times are milliseconds, but those
-- in a token seconds. The library jsonwebtoken is the interface `Jwt`,
-- whose tokens, which the service only hands on, are a type of its own.
pub mod Service
pub mod Verdicts
pub mod Issued
mod Tests
use red_room_rewards.Prelude.{
  is_empty, false, ℕ, ◌+◌, ◌*◌, ◌/◌, ltb, ℤ, ◌+ℤ◌, String, str_eq, ◌≡◌, Bool, true, false, ◌||◌,
  List, [], ◌∷◌, Option, none, some, if◌then◌else◌,
}
use red_room_rewards.Domain.{
  TransactionReason, Error, authorization_expired, authorization_invalid,
  authorization_type_invalid, authorization_role_invalid, queue_item_mismatch, escrow_mismatch,
  authorization_queue_item_mismatch, authorization_escrow_mismatch,
}
use red_room_rewards.Action.{Result, ok, err}

pub data Algorithm : Type 0 where
  hs256 hs384 hs512 : Algorithm

pub record AuthServiceConfig : Type 0 where
  pub jwt_secret : String
  pub token_expiry_seconds : ℕ
  pub algorithm : Algorithm

pub data UserRole : Type 0 where
  admin user model queue_service system : UserRole

abbrev pub same_role : UserRole → UserRole → Bool
same_role UserRole.admin UserRole.admin = true
same_role UserRole.user UserRole.user = true
same_role UserRole.model UserRole.model = true
same_role UserRole.queue_service UserRole.queue_service = true
same_role UserRole.system UserRole.system = true
same_role _ _ = false

-- `JWTPayload` and `QueueAuthorizationPayload`, which extends it.
pub record QueueAuthorizationPayload : Type 0 where
  pub sub : String
  pub role : UserRole
  pub iat : ℕ
  pub exp : ℕ
  pub type : String
  pub queue_item_id : String
  pub escrow_id : String
  pub user_id : Option String
  pub model_id : Option String
  pub amount : ℤ
  pub refund_amount : Option ℤ
  pub settle_amount : Option ℤ
  pub reason : TransactionReason

-- What `jwt.verify` makes of a token: its payload, a TokenExpiredError or a JsonWebTokenError.
pub data Verdict : Type 0 where
  valid : QueueAuthorizationPayload → Verdict
  expired malformed : Verdict

-- What the service relies on of jsonwebtoken: under the secret, which must not be empty, and the
-- algorithm that it was signed with, a token gives back its payload before the second `exp`, and has
-- expired from then on. For an empty secret `sign` throws, which is left out.
pub record Jwt : Type 1 where
  pub Token : Type 0
  pub sign : QueueAuthorizationPayload → String → Algorithm → Token
  pub verify : Token → String → Algorithm → ℕ → Verdict
  pub verify-sign :
      (p : QueueAuthorizationPayload) (secret : String) (a : Algorithm) (now : ℕ)
      → is_empty secret ≡ false
      → verify (sign p secret a) secret a now ≡ (if ltb now p.exp then valid p else expired)

pub record QueueSettlementAuthorization (Token : Type 0) : Type 0 where
  pub queue_item_id : String
  pub token : Token
  pub escrow_id : String
  pub model_id : String
  pub amount : ℤ
  pub reason : TransactionReason
  pub issued_at : ℕ
  pub expires_at : ℕ

pub record QueueRefundAuthorization (Token : Type 0) : Type 0 where
  pub queue_item_id : String
  pub token : Token
  pub escrow_id : String
  pub user_id : String
  pub amount : ℤ
  pub reason : TransactionReason
  pub issued_at : ℕ
  pub expires_at : ℕ

pub record QueuePartialSettlementAuthorization (Token : Type 0) : Type 0 where
  pub queue_item_id : String
  pub token : Token
  pub escrow_id : String
  pub user_id : String
  pub model_id : String
  pub refund_amount : ℤ
  pub settle_amount : ℤ
  pub reason : TransactionReason
  pub issued_at : ℕ
  pub expires_at : ℕ

-- `Math.floor(t / 1000)`
abbrev pub seconds : ℕ → ℕ
seconds t = t / 1000

unfoldable pub expiry : AuthServiceConfig → ℕ → ℕ
expiry cfg issued_at = issued_at + cfg.token_expiry_seconds * 1000

unfoldable pub settlement_payload :
    AuthServiceConfig
    → ℕ
    → (queue_item_id escrow_id model_id : String) → ℤ
    → TransactionReason
    → QueueAuthorizationPayload
settlement_payload cfg issued_at queue_item_id escrow_id model_id amount reason = record {
  sub = "queue_service";
  role = UserRole.queue_service;
  iat = seconds issued_at;
  exp = seconds (expiry cfg issued_at);
  type = "queue_settlement";
  queue_item_id = queue_item_id;
  escrow_id = escrow_id;
  user_id = none;
  model_id = some model_id;
  amount = amount;
  refund_amount = none;
  settle_amount = none;
  reason = reason;
}

unfoldable pub refund_payload :
    AuthServiceConfig
    → ℕ
    → (queue_item_id escrow_id user_id : String) → ℤ
    → TransactionReason
    → QueueAuthorizationPayload
refund_payload cfg issued_at queue_item_id escrow_id user_id amount reason = record {
  sub = "queue_service";
  role = UserRole.queue_service;
  iat = seconds issued_at;
  exp = seconds (expiry cfg issued_at);
  type = "queue_refund";
  queue_item_id = queue_item_id;
  escrow_id = escrow_id;
  user_id = some user_id;
  model_id = none;
  amount = amount;
  refund_amount = none;
  settle_amount = none;
  reason = reason;
}

unfoldable pub partial_payload :
    AuthServiceConfig
    → ℕ
    → (queue_item_id escrow_id user_id model_id : String) → (refund_amount settle_amount : ℤ)
    → TransactionReason
    → QueueAuthorizationPayload
partial_payload cfg issued_at queue_item_id escrow_id user_id model_id refund settle reason =
    record {
      sub = "queue_service";
      role = UserRole.queue_service;
      iat = seconds issued_at;
      exp = seconds (expiry cfg issued_at);
      type = "queue_partial_settlement";
      queue_item_id = queue_item_id;
      escrow_id = escrow_id;
      user_id = some user_id;
      model_id = some model_id;
      amount = refund +ℤ settle;
      refund_amount = some refund;
      settle_amount = some settle;
      reason = reason;
    }
