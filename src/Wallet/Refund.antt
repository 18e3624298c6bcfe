-- ===== src/Wallet/Refund.antt =====
-- `refundEscrow` of wallets/wallet.service.ts.
pub mod Alone
pub mod Effects
use red_room_rewards.Prelude.{suc, ℤ, ◌+ℤ◌, ◌-ℤ◌, String, Option, none, some, ◌==◌}
use red_room_rewards.Domain.{
  user, credit, available, refunding, refunded, EscrowRefundRequest, EscrowRefundResponse,
  CreateLedgerEntryRequest, optimistic_lock, wallet_not_found,
}
use red_room_rewards.Store.{Mongo}
use red_room_rewards.Store.Docs.{Wallet, EscrowItem}
use red_room_rewards.Action.{
  pure, throw, lift, atomically, ◌>>=◌, ◌>>◌, fresh_id, current_time, publish,
}
use red_room_rewards.WalletEvents.{escrow_refunded}
use red_room_rewards.Service.{Service}
use red_room_rewards.Ledger.Entries.{create_entry}
use red_room_rewards.Ledger.Idempotency.{claim_idempotency}
use red_room_rewards.Wallet.Config.{Config}
use red_room_rewards.Wallet.Steps.{
  find_wallet, update_wallet, lock_escrow, set_escrow, require_token, require_claim, or_fail,
  locked_or_throw, unlocked,
}

-- `{ $inc: { availableBalance: given, escrowBalance: -taken, version: 1 } }`
unfoldable pub returned_wallet : ℤ → ℤ → Wallet → Wallet
returned_wallet given taken w = record w {
  available_balance = w.available_balance +ℤ given;
  escrow_balance = w.escrow_balance -ℤ taken;
  version = suc w.version;
}

abbrev pub refunded_item : EscrowItem → EscrowItem
refunded_item x = record x { status = refunded }

unfoldable pub refund_entry :
    Config → EscrowRefundRequest → String → Wallet → CreateLedgerEntryRequest
refund_entry cfg r transaction_id w = record {
  transaction_id = some transaction_id;
  account_id = r.user_id;
  account_type = user;
  amount = r.amount;
  type = credit;
  balance_state = available;
  state_transition = "escrow→available";
  reason = r.reason;
  idempotency_key = r.idempotency_key;
  request_id = r.request_id;
  balance_before = w.available_balance;
  balance_after = w.available_balance +ℤ r.amount;
  currency = some cfg.default_currency;
  metadata = r.metadata;
  escrow_id = some r.escrow_id;
  queue_item_id = some r.queue_item_id;
  feature_type = none;
  correlation_id = none;
}

module _ (M : Mongo) (cfg : Config) where
  unfoldable pub record_refund :
      EscrowRefundRequest → Wallet → Wallet → Service M EscrowRefundResponse
  record_refund r w updated = do
    atomically (set_escrow M r.escrow_id refunded_item)
    transaction_id ← fresh_id
    create_entry M cfg.ledger_currency (refund_entry cfg r transaction_id w)
    timestamp ← current_time
    publish (
        escrow_refunded (record {
          user_id = r.user_id;
          escrow_id = r.escrow_id;
          amount = r.amount;
          reason = r.reason;
          queue_item_id = r.queue_item_id;
          transaction_id = transaction_id;
          user_available_balance = w.available_balance +ℤ r.amount;
          user_escrow_balance = updated.escrow_balance;
          idempotency_key = r.idempotency_key;
          metadata = r.metadata;
        }))
    pure (record {
      transaction_id = transaction_id;
      refunded_amount = r.amount;
      user_available_balance = w.available_balance +ℤ r.amount;
      timestamp = timestamp;
    })

  -- `if (!updatedWallet) { … }`: the escrow is unlocked again.
  unfoldable pub after_return :
      EscrowRefundRequest → Wallet → Option Wallet → Service M EscrowRefundResponse
  after_return r w none = do
    atomically (set_escrow M r.escrow_id unlocked)
    throw (optimistic_lock "wallet" r.user_id)
  after_return r w (some updated) = record_refund r w updated

  -- From the locked escrow item on.
  unfoldable pub refund_locked : EscrowRefundRequest → Service M EscrowRefundResponse
  refund_locked r = do
    found ← atomically (find_wallet M r.user_id)
    w ← lift (or_fail found wallet_not_found)
    updated ← atomically (
        update_wallet M r.user_id (λ v. v.version == w.version) (returned_wallet r.amount r.amount))
    after_return r w updated

  unfoldable pub refund_escrow :
      EscrowRefundRequest → Option String → Service M EscrowRefundResponse
  refund_escrow r token = do
    lift (require_token token)
    claimed ← claim_idempotency M r.idempotency_key "refund_escrow" none
    lift (require_claim claimed)
    now ← current_time
    locked ← atomically (lock_escrow M r.escrow_id refunding now)
    x ← locked_or_throw M r.escrow_id locked
    refund_locked r
