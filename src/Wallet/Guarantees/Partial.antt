-- ===== src/Wallet/Guarantees/Partial.antt =====
-- The guarantees of `partialSettleEscrow`.
use red_room_rewards.Prelude.{ℤ, String, Option, none, some}
use red_room_rewards.Domain.{EscrowPartialSettleRequest, CreateLedgerEntryRequest}
use red_room_rewards.Store.{Mongo, Db}
use red_room_rewards.Store.Docs.{Wallet, ModelWallet, EscrowItem}
use red_room_rewards.Action.Keeps.{
  Guarantees, Guarantees-pure, Guarantees-throw, Guarantees-lift, Guarantees-atomically,
  Guarantees-if, Guarantees-fresh_id, Guarantees-current_time, Guarantees-publish, Guarantees-bind,
}
use red_room_rewards.Ledger.Entries.Laws.{create_entry-Guarantees}
use red_room_rewards.Ledger.Idempotency.Laws.{claim_idempotency-Guarantees}
use red_room_rewards.Wallet.Config.{Config}
use red_room_rewards.Wallet.Steps.{set_escrow, unlocked}
use red_room_rewards.Wallet.Partial.{
  entry_if_positive, record_partial, after_credit, after_debit, partial_locked,
  partial_settle_escrow,
}
use red_room_rewards.Wallet.Guarantees.Steps.{WalletSteps}
use red_room_rewards.Wallet.Guarantees.Shared.{
  find_wallet-Guarantees, locked_or_throw-Guarantees, get_or_create_model_wallet-Guarantees,
}

module _ {M : Mongo} {Allowed : ℤ → Type 0} {G : Db M → Db M → Type 0} (s : WalletSteps Allowed G)
    (cfg : Config) where
  entry_if_positive-Guarantees :
      (e : CreateLedgerEntryRequest) → Guarantees G (entry_if_positive M cfg e)
  unfolding entry_if_positive
  entry_if_positive-Guarantees e =
      Guarantees-if s.order _ _ _
        (Guarantees-bind s.order _ _
          (create_entry-Guarantees M s.order s.inserts cfg.ledger_currency e)
          (λ _. Guarantees-pure s.order tt))
        (Guarantees-pure s.order tt)

  record_partial-Guarantees :
      (r : EscrowPartialSettleRequest) (w : Wallet) (m : ModelWallet) (u : Wallet)
      → Guarantees G (record_partial M cfg r w m u)
  unfolding record_partial
  record_partial-Guarantees r w m u =
      search
        (
          Guarantees-bind s.order,
          Guarantees-fresh_id s.order,
          Guarantees-current_time s.order,
          Guarantees-publish s.order,
          Guarantees-pure s.order,
          Guarantees-atomically s.order,
          s.settles,
          entry_if_positive-Guarantees,
        )
        depth 20

  after_credit-Guarantees :
      (r : EscrowPartialSettleRequest) (w : Wallet) (m : ModelWallet) (u : Wallet)
      (v : Option ModelWallet)
      → Guarantees G (after_credit M cfg r w m u v)
  unfolding after_credit
  after_credit-Guarantees r w m u none =
      Guarantees-bind s.order _ _
        (Guarantees-atomically s.order (set_escrow M r.escrow_id unlocked) (s.unlocks r.escrow_id))
        (λ _. Guarantees-throw s.order _)
  after_credit-Guarantees r w m u (some v) = record_partial-Guarantees r w m u

  after_debit-Guarantees :
      (r : EscrowPartialSettleRequest) (w : Wallet) (m : ModelWallet) (u : Option Wallet)
      → Guarantees G (after_debit M cfg r w m u)
  unfolding after_debit
  after_debit-Guarantees r w m none =
      Guarantees-bind s.order _ _
        (Guarantees-atomically s.order (set_escrow M r.escrow_id unlocked) (s.unlocks r.escrow_id))
        (λ _. Guarantees-throw s.order _)
  after_debit-Guarantees r w m (some u) =
      Guarantees-bind s.order _ _
        (Guarantees-atomically s.order _ (s.credits r.model_id r.settle_amount m))
        (after_credit-Guarantees r w m u)

  partial_locked-Guarantees :
      (r : EscrowPartialSettleRequest) (x : EscrowItem)
      → Allowed r.refund_amount
      → Guarantees G (partial_locked M cfg r x)
  unfolding partial_locked
  partial_locked-Guarantees r x a =
      search
        (
          Guarantees-bind s.order,
          Guarantees-lift s.order,
          find_wallet-Guarantees s.order,
          get_or_create_model_wallet-Guarantees s.order s.creates_model,
          Guarantees-atomically s.order,
          s.returns,
          after_debit-Guarantees,
        )
        depth 20

  pub partial-Guarantees :
      (r : EscrowPartialSettleRequest) (token : Option String)
      → Allowed r.refund_amount
      → Guarantees G (partial_settle_escrow M cfg r token)
  unfolding partial_settle_escrow
  partial-Guarantees r token a =
      search
        (
          Guarantees-bind s.order,
          Guarantees-lift s.order,
          Guarantees-current_time s.order,
          claim_idempotency-Guarantees M s.order s.records,
          Guarantees-atomically s.order,
          s.locks,
          locked_or_throw-Guarantees s.order,
          partial_locked-Guarantees,
        )
        depth 20
