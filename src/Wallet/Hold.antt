-- ===== src/Wallet/Hold.antt =====
-- `holdInEscrow` and `executeHoldInEscrow` of wallets/wallet.service.ts.
pub mod Alone
pub mod Run
pub mod Effects
pub mod Conflict
use red_room_rewards.Prelude.{
  ℕ, zero, suc, ℤ, ◌+ℤ◌, ◌-ℤ◌, neg_ℤ, ltb_ℤ, String, Bool, true, false, Option, none, some, ◌==◌,
  suffixed, if◌then◌else◌,
}
use red_room_rewards.Domain.{
  user, credit, debit, available, escrow, held, EscrowHoldRequest, EscrowHoldResponse,
  CreateLedgerEntryRequest, Error, insufficient_balance, optimistic_lock,
}
use red_room_rewards.Store.{Mongo}
use red_room_rewards.Store.Docs.{Wallet, EscrowItem}
use red_room_rewards.Action.{
  Result, ok, err, pure, throw, lift, atomically, attempt, ◌>>=◌, ◌>>◌, fresh_id, current_time,
  publish,
}
use red_room_rewards.WalletEvents.{escrow_held}
use red_room_rewards.Service.{Service}
use red_room_rewards.Ledger.Entries.{create_entry}
use red_room_rewards.Ledger.Idempotency.{claim_idempotency}
use red_room_rewards.Wallet.Config.{Config}
use red_room_rewards.Wallet.Steps.{
  update_wallet, create_escrow, delete_escrow, get_or_create_wallet, require_claim,
}

unfoldable pub check_balance : ℤ → Wallet → Result (Unit {0})
check_balance amount w =
    if ltb_ℤ w.available_balance amount
    then err (insufficient_balance amount w.available_balance)
    else ok tt

unfoldable pub held_item : EscrowHoldRequest → String → ℕ → EscrowItem
held_item r escrow_id now = record {
  escrow_id = escrow_id;
  user_id = r.user_id;
  amount = r.amount;
  status = held;
  queue_item_id = r.queue_item_id;
  feature_type = r.feature_type;
  reason = r.reason;
  metadata = r.metadata;
  created_at = now;
  processed_at = none;
  model_id = none;
}

-- The update's `$set`, from the wallet that was read.
unfoldable pub held_wallet : ℤ → Wallet → Wallet → Wallet
held_wallet amount read w = record w {
  available_balance = read.available_balance -ℤ amount;
  escrow_balance = read.escrow_balance +ℤ amount;
  version = suc read.version;
}

unfoldable pub debit_entry :
    Config → EscrowHoldRequest → String → String → Wallet → CreateLedgerEntryRequest
debit_entry cfg r transaction_id escrow_id w = record {
  transaction_id = some transaction_id;
  account_id = r.user_id;
  account_type = user;
  amount = neg_ℤ r.amount;
  type = debit;
  balance_state = available;
  state_transition = "available→escrow";
  reason = r.reason;
  idempotency_key = suffixed r.idempotency_key "_debit";
  request_id = r.request_id;
  balance_before = w.available_balance;
  balance_after = w.available_balance -ℤ r.amount;
  currency = some cfg.default_currency;
  metadata = r.metadata;
  escrow_id = some escrow_id;
  queue_item_id = some r.queue_item_id;
  feature_type = some r.feature_type;
  correlation_id = none;
}

unfoldable pub credit_entry :
    Config → EscrowHoldRequest → String → String → Wallet → CreateLedgerEntryRequest
credit_entry cfg r transaction_id escrow_id w = record {
  transaction_id = some transaction_id;
  account_id = r.user_id;
  account_type = user;
  amount = r.amount;
  type = credit;
  balance_state = escrow;
  state_transition = "available→escrow";
  reason = r.reason;
  idempotency_key = suffixed r.idempotency_key "_credit";
  request_id = r.request_id;
  balance_before = w.escrow_balance;
  balance_after = w.escrow_balance +ℤ r.amount;
  currency = some cfg.default_currency;
  metadata = r.metadata;
  escrow_id = some escrow_id;
  queue_item_id = some r.queue_item_id;
  feature_type = some r.feature_type;
  correlation_id = none;
}

module _ (M : Mongo) (cfg : Config) where
  -- What follows the update that went through: two ledger entries and an event.
  unfoldable pub record_hold : EscrowHoldRequest → String → Wallet → Service M EscrowHoldResponse
  record_hold r escrow_id w = do
    transaction_id ← fresh_id
    timestamp ← current_time
    create_entry M cfg.ledger_currency (debit_entry cfg r transaction_id escrow_id w)
    create_entry M cfg.ledger_currency (credit_entry cfg r transaction_id escrow_id w)
    publish (
        escrow_held (record {
          user_id = r.user_id;
          escrow_id = escrow_id;
          amount = r.amount;
          reason = r.reason;
          queue_item_id = r.queue_item_id;
          feature_type = r.feature_type;
          transaction_id = transaction_id;
          user_available_balance = w.available_balance -ℤ r.amount;
          user_escrow_balance = w.escrow_balance +ℤ r.amount;
          idempotency_key = r.idempotency_key;
          metadata = r.metadata;
        }))
    pure (record {
      transaction_id = transaction_id;
      escrow_id = escrow_id;
      previous_balance = w.available_balance;
      new_available_balance = w.available_balance -ℤ r.amount;
      escrow_balance = w.escrow_balance +ℤ r.amount;
      timestamp = timestamp;
    })

  -- `if (!updated) { … }`
  unfoldable pub after_hold :
      EscrowHoldRequest → String → Wallet → Option Wallet → Service M EscrowHoldResponse
  after_hold r escrow_id w none = do
    atomically (delete_escrow M escrow_id)
    throw (optimistic_lock "wallet" r.user_id)
  after_hold r escrow_id w (some updated) = record_hold r escrow_id w

  unfoldable pub execute_hold_in_escrow : EscrowHoldRequest → Service M EscrowHoldResponse
  execute_hold_in_escrow r = do
    wallet ← get_or_create_wallet M cfg.default_currency r.user_id
    lift (check_balance r.amount wallet)
    escrow_id ← fresh_id
    now ← current_time
    atomically (create_escrow M (held_item r escrow_id now))
    updated ←
        atomically (
          update_wallet M r.user_id (λ w. w.version == wallet.version)
            (held_wallet r.amount wallet))
    after_hold r escrow_id wallet updated

  -- The `catch` of the loop, with the attempts that are left.
  unfoldable pub retry_hold :
      ℕ → Service M EscrowHoldResponse → Result EscrowHoldResponse → Service M EscrowHoldResponse
  retry_hold left again (ok response) = pure response
  retry_hold zero again (err x) = throw x
  retry_hold (suc left) again (err (optimistic_lock kind id)) = again
  retry_hold (suc left) again (err x) = throw x

  -- The `while` loop, with the number of attempts that are left.
  unfoldable pub hold_attempts : ℕ → EscrowHoldRequest → Service M EscrowHoldResponse
  hold_attempts zero r = throw (optimistic_lock "wallet" r.user_id)
  hold_attempts (suc left) r = do
    result ← attempt (execute_hold_in_escrow r)
    retry_hold left (hold_attempts left r) result

  unfoldable pub hold_in_escrow : EscrowHoldRequest → Service M EscrowHoldResponse
  hold_in_escrow r = do
    claimed ← claim_idempotency M r.idempotency_key "hold_escrow" none
    lift (require_claim claimed)
    hold_attempts cfg.max_retry_attempts r
