-- ===== src/Wallet/Settle.antt =====
-- `settleEscrow` of wallets/wallet.service.ts.
pub mod Alone
pub mod Effects
pub mod Failures
use red_room_rewards.Prelude.{suc, ℤ, ◌+ℤ◌, ◌-ℤ◌, ◌+◌, String, Option, none, some, ◌==◌}
use red_room_rewards.Domain.{
  model, credit, earned, settling, settled, EscrowSettleRequest, EscrowSettleResponse,
  CreateLedgerEntryRequest, optimistic_lock, user_wallet_not_found,
}
use red_room_rewards.Store.{Mongo}
use red_room_rewards.Store.Docs.{Wallet, ModelWallet, EscrowItem}
use red_room_rewards.Action.{
  pure, throw, lift, atomically, ◌>>=◌, ◌>>◌, fresh_id, current_time, publish,
}
use red_room_rewards.WalletEvents.{escrow_settled}
use red_room_rewards.Service.{Service}
use red_room_rewards.Ledger.Entries.{create_entry}
use red_room_rewards.Ledger.Idempotency.{claim_idempotency}
use red_room_rewards.Wallet.Config.{Config}
use red_room_rewards.Wallet.Steps.{
  find_wallet, update_wallet, update_model_wallet, lock_escrow, set_escrow,
  get_or_create_model_wallet, require_token, require_claim, or_fail, locked_or_throw, unlocked,
}

-- `{ $set: { earnedBalance }, $inc: { version: 1 } }`, from the wallet that was read.
unfoldable pub credited_model : ℤ → ModelWallet → ModelWallet → ModelWallet
credited_model amount read w = record w {
  earned_balance = read.earned_balance +ℤ amount;
  version = suc w.version;
}

-- `{ $inc: { escrowBalance: -amount, version: 1 } }`
unfoldable pub released_wallet : ℤ → Wallet → Wallet
released_wallet amount w = record w {
  escrow_balance = w.escrow_balance -ℤ amount;
  version = suc w.version;
}

abbrev pub settled_item : String → EscrowItem → EscrowItem
settled_item model_id x = record x { status = settled; model_id = some model_id }

unfoldable pub earned_entry :
    Config → EscrowSettleRequest → String → ModelWallet → CreateLedgerEntryRequest
earned_entry cfg r transaction_id m = record {
  transaction_id = some transaction_id;
  account_id = r.model_id;
  account_type = model;
  amount = r.amount;
  type = credit;
  balance_state = earned;
  state_transition = "escrow→earned";
  reason = r.reason;
  idempotency_key = r.idempotency_key;
  request_id = r.request_id;
  balance_before = m.earned_balance;
  balance_after = m.earned_balance +ℤ r.amount;
  currency = some cfg.default_currency;
  metadata = r.metadata;
  escrow_id = some r.escrow_id;
  queue_item_id = some r.queue_item_id;
  feature_type = none;
  correlation_id = none;
}

module _ (M : Mongo) (cfg : Config) where
  -- What follows the two wallet updates: the final status, the ledger entry and the event.
  unfoldable pub record_settlement :
      EscrowSettleRequest → EscrowItem → ModelWallet → Service M EscrowSettleResponse
  record_settlement r x m = do
    atomically (set_escrow M r.escrow_id (settled_item r.model_id))
    transaction_id ← fresh_id
    create_entry M cfg.ledger_currency (earned_entry cfg r transaction_id m)
    timestamp ← current_time
    publish (
        escrow_settled (record {
          user_id = x.user_id;
          model_id = r.model_id;
          escrow_id = r.escrow_id;
          amount = r.amount;
          reason = r.reason;
          queue_item_id = r.queue_item_id;
          transaction_id = transaction_id;
          model_earned_balance = m.earned_balance +ℤ r.amount;
          idempotency_key = r.idempotency_key;
          metadata = r.metadata;
        }))
    pure (record {
      transaction_id = transaction_id;
      settled_amount = r.amount;
      model_earned_balance = m.earned_balance +ℤ r.amount;
      timestamp = timestamp;
    })

  -- `if (!updatedUserWallet) { … }`: the escrow is unlocked again.
  unfoldable pub after_release :
      EscrowSettleRequest
      → EscrowItem
      → ModelWallet
      → Option Wallet
      → Service M EscrowSettleResponse
  after_release r x m none = do
    atomically (set_escrow M r.escrow_id unlocked)
    throw (optimistic_lock "wallet" x.user_id)
  after_release r x m (some updated) = record_settlement r x m

  -- From the locked escrow item on.
  unfoldable pub settle_locked : EscrowSettleRequest → EscrowItem → Service M EscrowSettleResponse
  settle_locked r x = do
    m ← get_or_create_model_wallet M cfg.default_currency r.model_id
    updated_model ←
        atomically (
          update_model_wallet M r.model_id (λ w. w.version == m.version)
            (credited_model r.amount m))
    lift (or_fail updated_model (optimistic_lock "model_wallet" r.model_id))
    found ← atomically (find_wallet M x.user_id)
    w ← lift (or_fail found user_wallet_not_found)
    updated ←
        atomically
          (update_wallet M x.user_id (λ v. v.version == w.version) (released_wallet r.amount))
    after_release r x m updated

  unfoldable pub settle_escrow :
      EscrowSettleRequest → Option String → Service M EscrowSettleResponse
  settle_escrow r token = do
    lift (require_token token)
    claimed ← claim_idempotency M r.idempotency_key "settle_escrow" none
    lift (require_claim claimed)
    now ← current_time
    locked ← atomically (lock_escrow M r.escrow_id settling now)
    x ← locked_or_throw M r.escrow_id locked
    settle_locked r x
