-- ===== src/Expiration.antt =====
-- `processUserExpiration` of services/point-expiration.service.ts. What JavaScript makes of dates is
-- the parameter `Dates`. The batch over users and the warnings are left out.
pub mod Alone
mod Tests
use red_room_rewards.Prelude.{
  ℕ, zero, suc, ◌+◌, ◌*◌, leb, ◌==◌, ℤ, pos, ◌+ℤ◌, ◌-ℤ◌, neg_ℤ, leb_ℤ, eqb_ℤ, min_ℤ, String, str_eq,
  suffixed, ◌≡◌, Bool, true, false, List, [], ◌∷◌, Option, none, some, if◌then◌else◌,
}
use red_room_rewards.Domain.{
  AccountType, user, credit, debit, available, point_expiry, reason_text, Metadata, MetaValue, text,
  other, CreateLedgerEntryRequest, no_wallet_for,
}
use red_room_rewards.Store.{Mongo}
use red_room_rewards.Store.Docs.{Wallet, LedgerEntry}
use red_room_rewards.Action.{
  Result, ok, pure, lift, atomically, ◌>>=◌, ◌>>◌, fresh_id, current_time,
}
use red_room_rewards.Service.{Service}
use red_room_rewards.Ledger.Entries.{create_entry}
use red_room_rewards.Ledger.Pii.{has_email}
use red_room_rewards.Ledger.Query.{LedgerQueryFilter, query_entries}
use red_room_rewards.Wallet.Steps.{find_wallet, update_wallet, or_fail}

-- `of` is what `v ? new Date(v) : null` makes of a value, none for an invalid date too; `iso_string` is
-- `toISOString` and `date_key` its part before the T. The text of a date has no email address in it.
pub record Dates : Type 0 where
  pub of : MetaValue → Option ℕ
  pub iso_string : ℕ → String
  pub date_key : ℕ → String
  pub no_email : (t : ℕ) → has_email (iso_string t) ≡ false

pub record UserExpirationDetails : Type 0 where
  pub user_id : String
  pub amount_expired : ℤ
  pub transaction_id : String
  pub timestamp : ℕ

-- The fields that the method reads, and the currency of the ledger's own configuration.
pub record PointExpirationConfig : Type 0 where
  pub default_currency : String
  pub grace_period_days : ℕ
  pub ledger_currency : String

-- The available credits of the user. No limit is given, so that the query returns a page of 100.
abbrev pub credits_of : String → LedgerQueryFilter
credits_of user_id = record {
  account_id = some user_id;
  account_type = some user;
  type = some credit;
  reason = none;
  balance_state = some available;
  escrow_id = none;
  queue_item_id = none;
  feature_type = none;
  start_date = none;
  end_date = none;
  offset = none;
  limit = none;
  sort_by = none;
  sort_order = none;
  tenant_id = none;
}

abbrev pub field : String → Metadata → Option MetaValue
field key [] = none
field key ((k, v) ∷ m) = let rest = field key m in if str_eq k key then some v else rest

abbrev pub date_in : Dates → Option MetaValue → Option ℕ
date_in D none = none
date_in D (some v) = D.of v

-- `entry.metadata?.expiresAt ? new Date(entry.metadata.expiresAt) : null`
abbrev pub expires_at : Dates → Option Metadata → Option ℕ
expires_at D none = none
expires_at D (some m) = date_in D (field "expiresAt" m)

-- `expiresAt && expiresAt <= gracePeriodDate`
unfoldable pub has_expired : Dates → PointExpirationConfig → ℕ → LedgerEntry → Bool
has_expired D cfg now e = elim (expires_at D e.metadata) [
  | none ↦ false
  | some t ↦ leb (t + cfg.grace_period_days * 86400000) now
]

-- The loop over the entries.
unfoldable pub total_expired : Dates → PointExpirationConfig → ℕ → List LedgerEntry → ℤ
unfolding has_expired
total_expired D cfg now [] = pos 0
total_expired D cfg now (e ∷ es) =
    let rest = total_expired D cfg now es in
    if has_expired D cfg now e then e.amount +ℤ rest else rest

-- `{ $inc: { availableBalance: -amountToExpire, version: 1 } }`
unfoldable pub expired_wallet : ℤ → Wallet → Wallet
expired_wallet amount w = record w {
  available_balance = w.available_balance -ℤ amount;
  version = suc w.version;
}

-- `expiration-${userId}-${expirationDateKey}`
abbrev pub expiration_key : String → String → String
expiration_key user_id day = suffixed "expiration-" (suffixed user_id (suffixed "-" day))

unfoldable pub expiration_entry :
    Dates
    → PointExpirationConfig
    → (user_id request_id transaction_id : String) → ℕ
    → ℤ
    → Wallet
    → CreateLedgerEntryRequest
expiration_entry D cfg user_id request_id transaction_id timestamp amount w = record {
  transaction_id = some transaction_id;
  account_id = user_id;
  account_type = user;
  amount = neg_ℤ amount;
  type = debit;
  balance_state = available;
  state_transition = "available→expired";
  reason = reason_text point_expiry;
  idempotency_key = expiration_key user_id (D.date_key timestamp);
  request_id = request_id;
  balance_before = w.available_balance;
  balance_after = w.available_balance -ℤ amount;
  currency = some cfg.default_currency;
  metadata =
      some (("expirationDate", text (D.iso_string timestamp)) ∷ ("amountExpired", other) ∷ []);
  escrow_id = none;
  queue_item_id = none;
  feature_type = none;
  correlation_id = none;
}

-- How one run of the method's body ends: with an answer, or because the wallet has changed, on which
-- the method calls itself again.
pub data Attempt : Type 0 where
  answered : Option UserExpirationDetails → Attempt
  conflict : Attempt

module _ (M : Mongo) (D : Dates) (cfg : PointExpirationConfig) (user_id request_id : String) where
  unfoldable pub record_expiration : ℤ → Wallet → Service M Attempt
  record_expiration amount w = do
    transaction_id ← fresh_id
    timestamp ← current_time
    create_entry M cfg.ledger_currency
        (expiration_entry D cfg user_id request_id transaction_id timestamp amount w)
    pure (
        answered (
          some (record {
            user_id = user_id;
            amount_expired = amount;
            transaction_id = transaction_id;
            timestamp = timestamp;
          })))

  abbrev pub after_update : ℤ → Wallet → Option Wallet → Service M Attempt
  after_update amount w none = pure conflict
  after_update amount w (some updated) = record_expiration amount w

  unfoldable pub debit_expired : ℤ → Wallet → Service M Attempt
  unfolding record_expiration expired_wallet
  debit_expired amount w = if leb_ℤ amount (pos 0) then pure (answered none) else do
    updated ←
        atomically (update_wallet M user_id (λ v. v.version == w.version) (expired_wallet amount))
    after_update amount w updated

  unfoldable pub expire_total : ℤ → Service M Attempt
  unfolding debit_expired
  expire_total total = if eqb_ℤ total (pos 0) then pure (answered none) else do
    found ← atomically (find_wallet M user_id)
    wallet ← lift (or_fail found (no_wallet_for user_id))
    debit_expired (min_ℤ total wallet.available_balance) wallet

  unfoldable pub expiration_attempt : Service M Attempt
  unfolding expire_total total_expired
  expiration_attempt = do
    result ← query_entries M (credits_of user_id)
    now ← current_time
    expire_total (total_expired D cfg now result.entries)

  abbrev pub or_again : Service M Attempt → Attempt → Service M Attempt
  or_again again (answered details) = pure (answered details)
  or_again again conflict = again

  -- With the number of attempts, which the method does not bound: a conflict as the answer says that
  -- they were used up.
  unfoldable pub process_user_expiration : ℕ → Service M Attempt
  unfolding expiration_attempt
  process_user_expiration zero = pure conflict
  process_user_expiration (suc left) = do
    attempt ← expiration_attempt
    or_again (process_user_expiration left) attempt
