-- ===== src/Wallet/Guarantees/Settle.antt =====
-- The guarantees of `settleEscrow`.
use red_room_rewards.Prelude.{ℤ, String, Option, none, some}
use red_room_rewards.Domain.{EscrowSettleRequest}
use red_room_rewards.Store.{Mongo, Db}
use red_room_rewards.Store.Docs.{Wallet, ModelWallet, EscrowItem}
use red_room_rewards.Action.Keeps.{
  Guarantees, Guarantees-pure, Guarantees-throw, Guarantees-lift, Guarantees-atomically,
  Guarantees-fresh_id, Guarantees-current_time, Guarantees-publish, Guarantees-bind,
}
use red_room_rewards.Ledger.Entries.Laws.{create_entry-Guarantees}
use red_room_rewards.Ledger.Idempotency.Laws.{claim_idempotency-Guarantees}
use red_room_rewards.Wallet.Config.{Config}
use red_room_rewards.Wallet.Steps.{set_escrow, unlocked}
use red_room_rewards.Wallet.Settle.{record_settlement, after_release, settle_locked, settle_escrow}
use red_room_rewards.Wallet.Guarantees.Steps.{WalletSteps}
use red_room_rewards.Wallet.Guarantees.Shared.{
  find_wallet-Guarantees, locked_or_throw-Guarantees, get_or_create_model_wallet-Guarantees,
}

module _ {M : Mongo} {Allowed : ℤ → Type 0} {G : Db M → Db M → Type 0} (s : WalletSteps Allowed G)
    (cfg : Config) where
  record_settlement-Guarantees :
      (r : EscrowSettleRequest) (x : EscrowItem) (m : ModelWallet)
      → Guarantees G (record_settlement M cfg r x m)
  unfolding record_settlement
  record_settlement-Guarantees r x m =
      search
        (
          Guarantees-bind s.order,
          Guarantees-fresh_id s.order,
          Guarantees-current_time s.order,
          Guarantees-publish s.order,
          Guarantees-pure s.order,
          Guarantees-atomically s.order,
          s.settles,
          create_entry-Guarantees M s.order s.inserts,
        )
        depth 20

  after_release-Guarantees :
      (r : EscrowSettleRequest) (x : EscrowItem) (m : ModelWallet) (u : Option Wallet)
      → Guarantees G (after_release M cfg r x m u)
  unfolding after_release
  after_release-Guarantees r x m none =
      Guarantees-bind s.order _ _
        (Guarantees-atomically s.order (set_escrow M r.escrow_id unlocked) (s.unlocks r.escrow_id))
        (λ _. Guarantees-throw s.order _)
  after_release-Guarantees r x m (some u) = record_settlement-Guarantees r x m

  settle_locked-Guarantees :
      (r : EscrowSettleRequest) (x : EscrowItem) → Guarantees G (settle_locked M cfg r x)
  unfolding settle_locked
  settle_locked-Guarantees r x =
      search
        (
          Guarantees-bind s.order,
          Guarantees-lift s.order,
          find_wallet-Guarantees s.order,
          get_or_create_model_wallet-Guarantees s.order s.creates_model,
          Guarantees-atomically s.order,
          s.credits,
          s.releases,
          after_release-Guarantees,
        )
        depth 20

  pub settle-Guarantees :
      (r : EscrowSettleRequest) (token : Option String) → Guarantees G (settle_escrow M cfg r token)
  unfolding settle_escrow
  settle-Guarantees r token =
      search
        (
          Guarantees-bind s.order,
          Guarantees-lift s.order,
          Guarantees-current_time s.order,
          claim_idempotency-Guarantees M s.order s.records,
          Guarantees-atomically s.order,
          s.locks,
          locked_or_throw-Guarantees s.order,
          settle_locked-Guarantees,
        )
        depth 20
