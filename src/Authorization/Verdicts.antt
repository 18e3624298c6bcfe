-- ===== src/Authorization/Verdicts.antt =====
-- What the three validations of services/auth.service.ts accept.
use red_room_rewards.Prelude.{
  ℕ, String, str_eq_iff, Bool, true, false, ◌≡◌, refl, ◌↔◌, arith, if◌then◌else◌,
}
use red_room_rewards.Domain.{Error}
use red_room_rewards.Action.{Result, ok, err}
use red_room_rewards.Authorization.{
  UserRole, same_role, QueueAuthorizationPayload, Verdict, valid, expired, malformed, Jwt,
  AuthServiceConfig, seconds, QueueSettlementAuthorization, QueueRefundAuthorization,
  QueuePartialSettlementAuthorization,
}
use red_room_rewards.Authorization.Service.{
  check_payload, and_then, read_verdict, verify_authorization_token,
  validate_settlement_authorization, validate_refund_authorization,
  validate_partial_settlement_authorization,
}

-- A token that is valid now and was signed by the queue service for this use, this item and this
-- escrow.
pub record Grants (J : Jwt) (cfg : AuthServiceConfig) (now : ℕ) (token : J.Token)
    (type item escrow : String) : Type 0 where
  pub payload : QueueAuthorizationPayload
  pub verified : J.verify token cfg.jwt_secret cfg.algorithm (seconds now) ≡ valid payload
  pub of_type : payload.type ≡ type
  pub of_queue : payload.role ≡ UserRole.queue_service
  pub for_item : payload.queue_item_id ≡ item
  pub for_escrow : payload.escrow_id ≡ escrow

queue_role :
    (r : UserRole) → (same_role r UserRole.queue_service ≡ true) ↔ (r ≡ UserRole.queue_service)
queue_role UserRole.admin = ground arith
queue_role UserRole.user = ground arith
queue_role UserRole.model = ground arith
queue_role UserRole.queue_service = ground arith
queue_role UserRole.system = ground arith

-- A test passes if it holds and what follows it does.
passes :
    (b : Bool) (x : Error) (r : Result (Unit {0}))
    → (if b then r else err x) ≡ ok tt
    → (b ≡ true) × (r ≡ ok tt)
passes true x r h = (refl, h)
passes false x r h = absurd (cc)

-- What `check_payload` checks.
record Fits (type item escrow given_item given_escrow : String) (p : QueueAuthorizationPayload)
    : Type 0 where
  of_type : p.type ≡ type
  of_queue : p.role ≡ UserRole.queue_service
  for_item : p.queue_item_id ≡ item
  for_escrow : p.escrow_id ≡ escrow
  same_item : given_item ≡ item
  same_escrow : given_escrow ≡ escrow

check_payload-Fits :
    (type item escrow given_item given_escrow : String) (p : QueueAuthorizationPayload)
    → check_payload type item escrow given_item given_escrow p ≡ ok tt
    → Fits type item escrow given_item given_escrow p
unfolding check_payload
check_payload-Fits type item escrow given_item given_escrow p h =
    let (a, h1) = passes _ _ _ h in
    let (b, h2) = passes _ _ _ h1 in
    let (c, h3) = passes _ _ _ h2 in
    let (d, h4) = passes _ _ _ h3 in
    let (e, h5) = passes _ _ _ h4 in
    let (f, h6) = passes _ _ _ h5 in
    record {
      of_type = (str_eq_iff _ _).0 a;
      of_queue = (queue_role _).0 b;
      for_item = (str_eq_iff _ _).0 c;
      for_escrow = (str_eq_iff _ _).0 d;
      same_item = (str_eq_iff _ _).0 e;
      same_escrow = (str_eq_iff _ _).0 f;
    }

Fits-check_payload :
    (type item escrow given_item given_escrow : String) (p : QueueAuthorizationPayload)
    → Fits type item escrow given_item given_escrow p
    → check_payload type item escrow given_item given_escrow p ≡ ok tt
unfolding check_payload
Fits-check_payload type item escrow given_item given_escrow p f =
    rw
      (
        (str_eq_iff _ _).1 f.of_type,
        (queue_role _).1 f.of_queue,
        (str_eq_iff _ _).1 f.for_item,
        (str_eq_iff _ _).1 f.for_escrow,
        (str_eq_iff _ _).1 f.same_item,
        (str_eq_iff _ _).1 f.same_escrow,
      )
      refl

-- The verdict on a token, and the checks after it.
module _ (type item escrow given_item given_escrow : String) where
  verdict-Fits :
      (v : Verdict)
      → and_then (read_verdict v) (check_payload type item escrow given_item given_escrow) ≡ ok tt
      → (p : QueueAuthorizationPayload) × (v ≡ valid p)
        × Fits type item escrow given_item given_escrow p
  verdict-Fits (valid p) h =
      (p, refl, check_payload-Fits type item escrow given_item given_escrow p h)
  verdict-Fits expired h = absurd (cc)
  verdict-Fits malformed h = absurd (cc)

-- What all three validations accept, by the use they expect.
module _ (J : Jwt) (cfg : AuthServiceConfig) (now : ℕ) where
  validated_iff :
      (token : J.Token) (type item escrow given_item given_escrow : String)
      → (and_then
            (verify_authorization_token J cfg now token)
            (check_payload type item escrow given_item given_escrow)
          ≡ ok tt)
        ↔ (Grants J cfg now token type item escrow × (given_item ≡ item) × (given_escrow ≡ escrow))
  unfolding verify_authorization_token
  validated_iff token type item escrow given_item given_escrow = (
    λ h.
        let (p, v, f) = verdict-Fits type item escrow given_item given_escrow _ h in
        (
          record {
            payload = p;
            verified = v;
            of_type = f.of_type;
            of_queue = f.of_queue;
            for_item = f.for_item;
            for_escrow = f.for_escrow;
          },
          f.same_item,
          f.same_escrow,
        ),
    λ (g, i, e). rw g.verified (
        Fits-check_payload type item escrow given_item given_escrow g.payload (record {
          of_type = g.of_type;
          of_queue = g.of_queue;
          for_item = g.for_item;
          for_escrow = g.for_escrow;
          same_item = i;
          same_escrow = e;
        })),
  )

-- Each validation passes exactly if the token is valid now and was signed by the queue service for
-- that use, the expected item and the expected escrow, and the authorization names these two. The
-- amount, the user and the model of the authorization make no difference.
pub validate_iff :
    (J : Jwt) (cfg : AuthServiceConfig) (now : ℕ) (item escrow : String)
    (s : QueueSettlementAuthorization J.Token) (r : QueueRefundAuthorization J.Token)
    (p : QueuePartialSettlementAuthorization J.Token)
    → ((validate_settlement_authorization J cfg now s item escrow ≡ ok tt) ↔ (
        Grants J cfg now s.token "queue_settlement" item escrow
        × (s.queue_item_id ≡ item)
        × (s.escrow_id ≡ escrow)))
      × ((validate_refund_authorization J cfg now r item escrow ≡ ok tt) ↔ (
          Grants J cfg now r.token "queue_refund" item escrow
          × (r.queue_item_id ≡ item)
          × (r.escrow_id ≡ escrow)))
      × ((validate_partial_settlement_authorization J cfg now p item escrow ≡ ok tt) ↔ (
          Grants J cfg now p.token "queue_partial_settlement" item escrow
          × (p.queue_item_id ≡ item)
          × (p.escrow_id ≡ escrow)))
unfolding validate_settlement_authorization validate_refund_authorization
    validate_partial_settlement_authorization
validate_iff J cfg now item escrow s r p = (
  validated_iff J cfg now s.token _ item escrow s.queue_item_id s.escrow_id,
  validated_iff J cfg now r.token _ item escrow r.queue_item_id r.escrow_id,
  validated_iff J cfg now p.token _ item escrow p.queue_item_id p.escrow_id,
)
