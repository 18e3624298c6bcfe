-- ===== src/Wallet/Partial.antt =====
-- `partialSettleEscrow` of wallets/wallet.service.ts. An amount is in thousandths of a point, so the
-- tolerance of 0.01 is ten.
pub mod Alone
pub mod Recording
pub mod Run
pub mod Effects
use red_room_rewards.Prelude.{
  ℤ, pos, ◌+ℤ◌, ◌-ℤ◌, abs, ltb_ℤ, String, Bool, Option, none, some, ◌==◌, suffixed, if◌then◌else◌,
}
use red_room_rewards.Domain.{
  user, model, credit, available, earned, partial_settling, EscrowPartialSettleRequest,
  EscrowPartialSettleResponse, CreateLedgerEntryRequest, optimistic_lock, user_wallet_not_found,
  amounts_must_equal_escrow,
}
use red_room_rewards.Store.{Mongo}
use red_room_rewards.Store.Docs.{Wallet, ModelWallet, EscrowItem}
use red_room_rewards.Action.{
  Result, ok, err, pure, throw, lift, atomically, ◌>>=◌, ◌>>◌, fresh_id, current_time, publish,
}
use red_room_rewards.WalletEvents.{escrow_partial_settled}
use red_room_rewards.Service.{Service}
use red_room_rewards.Ledger.Entries.{create_entry}
use red_room_rewards.Ledger.Idempotency.{claim_idempotency}
use red_room_rewards.Wallet.Config.{Config}
use red_room_rewards.Wallet.Steps.{
  find_wallet, update_wallet, update_model_wallet, lock_escrow, set_escrow,
  get_or_create_model_wallet, require_token, require_claim, or_fail, locked_or_throw, unlocked,
}
use red_room_rewards.Wallet.Settle.{credited_model, settled_item}
use red_room_rewards.Wallet.Refund.{returned_wallet}

abbrev pub tolerance : ℤ
tolerance = pos 10

-- `Math.abs(totalAmount - escrow.amount) > 0.01`
unfoldable pub check_amounts : EscrowPartialSettleRequest → ℤ → Result (Unit {0})
check_amounts r amount =
    if ltb_ℤ tolerance (abs (r.refund_amount +ℤ r.settle_amount -ℤ amount))
    then err amounts_must_equal_escrow
    else ok tt

unfoldable pub refund_part_entry :
    Config → EscrowPartialSettleRequest → String → Wallet → CreateLedgerEntryRequest
refund_part_entry cfg r transaction_id w = record {
  transaction_id = some transaction_id;
  account_id = r.user_id;
  account_type = user;
  amount = r.refund_amount;
  type = credit;
  balance_state = available;
  state_transition = "escrow→available";
  reason = r.reason;
  idempotency_key = suffixed r.idempotency_key "_refund";
  request_id = r.request_id;
  balance_before = w.available_balance;
  balance_after = w.available_balance +ℤ r.refund_amount;
  currency = some cfg.default_currency;
  metadata = r.metadata;
  escrow_id = some r.escrow_id;
  queue_item_id = some r.queue_item_id;
  feature_type = none;
  correlation_id = none;
}

unfoldable pub settle_part_entry :
    Config → EscrowPartialSettleRequest → String → ModelWallet → CreateLedgerEntryRequest
settle_part_entry cfg r transaction_id m = record {
  transaction_id = some transaction_id;
  account_id = r.model_id;
  account_type = model;
  amount = r.settle_amount;
  type = credit;
  balance_state = earned;
  state_transition = "escrow→earned";
  reason = r.reason;
  idempotency_key = suffixed r.idempotency_key "_settle";
  request_id = r.request_id;
  balance_before = m.earned_balance;
  balance_after = m.earned_balance +ℤ r.settle_amount;
  currency = some cfg.default_currency;
  metadata = r.metadata;
  escrow_id = some r.escrow_id;
  queue_item_id = some r.queue_item_id;
  feature_type = none;
  correlation_id = none;
}

module _ (M : Mongo) (cfg : Config) where
  -- `if (amount > 0) { await createEntry(…) }`
  unfoldable pub entry_if_positive : CreateLedgerEntryRequest → Service M (Unit {0})
  entry_if_positive e =
      if ltb_ℤ (pos 0) e.amount
      then (create_entry M cfg.ledger_currency e >>= λ _. pure tt)
      else pure tt

  unfoldable pub record_partial :
      EscrowPartialSettleRequest
      → Wallet
      → ModelWallet
      → Wallet
      → Service M EscrowPartialSettleResponse
  record_partial r w m updated = do
    atomically (set_escrow M r.escrow_id (settled_item r.model_id))
    transaction_id ← fresh_id
    entry_if_positive (refund_part_entry cfg r transaction_id w)
    entry_if_positive (settle_part_entry cfg r transaction_id m)
    timestamp ← current_time
    publish (
        escrow_partial_settled (record {
          user_id = r.user_id;
          model_id = r.model_id;
          escrow_id = r.escrow_id;
          refund_amount = r.refund_amount;
          settle_amount = r.settle_amount;
          reason = r.reason;
          queue_item_id = r.queue_item_id;
          transaction_id = transaction_id;
          user_available_balance = w.available_balance +ℤ r.refund_amount;
          user_escrow_balance = updated.escrow_balance;
          model_earned_balance = m.earned_balance +ℤ r.settle_amount;
          idempotency_key = r.idempotency_key;
          metadata = r.metadata;
        }))
    pure (record {
      transaction_id = transaction_id;
      refunded_amount = r.refund_amount;
      settled_amount = r.settle_amount;
      user_available_balance = w.available_balance +ℤ r.refund_amount;
      model_earned_balance = m.earned_balance +ℤ r.settle_amount;
      timestamp = timestamp;
    })

  -- `if (!updatedModelWallet) { … }`: the escrow is unlocked; the user's wallet stays as it was updated.
  unfoldable pub after_credit :
      EscrowPartialSettleRequest
      → Wallet
      → ModelWallet
      → Wallet
      → Option ModelWallet
      → Service M EscrowPartialSettleResponse
  after_credit r w m updated none = do
    atomically (set_escrow M r.escrow_id unlocked)
    throw (optimistic_lock "model_wallet" r.model_id)
  after_credit r w m updated (some _) = record_partial r w m updated

  -- `if (!updatedUserWallet) { … }`, and then the update of the model's wallet.
  unfoldable pub after_debit :
      EscrowPartialSettleRequest
      → Wallet
      → ModelWallet
      → Option Wallet
      → Service M EscrowPartialSettleResponse
  after_debit r w m none = do
    atomically (set_escrow M r.escrow_id unlocked)
    throw (optimistic_lock "wallet" r.user_id)
  after_debit r w m (some updated) = do
    updated_model ← atomically (
        update_model_wallet M r.model_id (λ v. v.version == m.version)
          (credited_model r.settle_amount m))
    after_credit r w m updated updated_model

  -- From the locked escrow item on.
  unfoldable pub partial_locked :
      EscrowPartialSettleRequest → EscrowItem → Service M EscrowPartialSettleResponse
  partial_locked r x = do
    lift (check_amounts r x.amount)
    found ← atomically (find_wallet M r.user_id)
    w ← lift (or_fail found user_wallet_not_found)
    m ← get_or_create_model_wallet M cfg.default_currency r.model_id
    updated ← atomically (
        update_wallet M r.user_id (λ v. v.version == w.version)
          (returned_wallet r.refund_amount x.amount))
    after_debit r w m updated

  unfoldable pub partial_settle_escrow :
      EscrowPartialSettleRequest → Option String → Service M EscrowPartialSettleResponse
  partial_settle_escrow r token = do
    lift (require_token token)
    claimed ← claim_idempotency M r.idempotency_key "partial_settle_escrow" none
    lift (require_claim claimed)
    now ← current_time
    locked ← atomically (lock_escrow M r.escrow_id partial_settling now)
    x ← locked_or_throw M r.escrow_id locked
    partial_locked r x
