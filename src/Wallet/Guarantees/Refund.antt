-- ===== src/Wallet/Guarantees/Refund.antt =====
-- The guarantees of `refundEscrow`.
use red_room_rewards.Prelude.{ℤ, String, Option, none, some}
use red_room_rewards.Domain.{EscrowRefundRequest}
use red_room_rewards.Store.{Mongo, Db}
use red_room_rewards.Store.Docs.{Wallet}
use red_room_rewards.Action.Keeps.{
  Guarantees, Guarantees-pure, Guarantees-throw, Guarantees-lift, Guarantees-atomically,
  Guarantees-fresh_id, Guarantees-current_time, Guarantees-publish, Guarantees-bind,
}
use red_room_rewards.Ledger.Entries.Laws.{create_entry-Guarantees}
use red_room_rewards.Ledger.Idempotency.Laws.{claim_idempotency-Guarantees}
use red_room_rewards.Wallet.Config.{Config}
use red_room_rewards.Wallet.Steps.{set_escrow, unlocked}
use red_room_rewards.Wallet.Refund.{record_refund, after_return, refund_locked, refund_escrow}
use red_room_rewards.Wallet.Guarantees.Steps.{RefundSteps}
use red_room_rewards.Wallet.Guarantees.Shared.{find_wallet-Guarantees, locked_or_throw-Guarantees}

module _ {M : Mongo} {Allowed : ℤ → Type 0} {G : Db M → Db M → Type 0} (s : RefundSteps Allowed G)
    (cfg : Config) where
  record_refund-Guarantees :
      (r : EscrowRefundRequest) (w u : Wallet) → Guarantees G (record_refund M cfg r w u)
  unfolding record_refund
  record_refund-Guarantees r w u =
      search
        (
          Guarantees-bind s.order,
          Guarantees-fresh_id s.order,
          Guarantees-current_time s.order,
          Guarantees-publish s.order,
          Guarantees-pure s.order,
          Guarantees-atomically s.order,
          s.refunds,
          create_entry-Guarantees M s.order s.inserts,
        )
        depth 20

  after_return-Guarantees :
      (r : EscrowRefundRequest) (w : Wallet) (u : Option Wallet)
      → Guarantees G (after_return M cfg r w u)
  unfolding after_return
  after_return-Guarantees r w none =
      Guarantees-bind s.order _ _
        (Guarantees-atomically s.order (set_escrow M r.escrow_id unlocked) (s.unlocks r.escrow_id))
        (λ _. Guarantees-throw s.order _)
  after_return-Guarantees r w (some u) = record_refund-Guarantees r w u

  refund_locked-Guarantees :
      (r : EscrowRefundRequest) → Allowed r.amount → Guarantees G (refund_locked M cfg r)
  unfolding refund_locked
  refund_locked-Guarantees r a =
      search
        (
          Guarantees-bind s.order,
          Guarantees-lift s.order,
          find_wallet-Guarantees s.order,
          Guarantees-atomically s.order,
          s.returns,
          after_return-Guarantees,
        )
        depth 20

  pub refund-Guarantees :
      (r : EscrowRefundRequest) (token : Option String)
      → Allowed r.amount
      → Guarantees G (refund_escrow M cfg r token)
  unfolding refund_escrow
  refund-Guarantees r token a =
      search
        (
          Guarantees-bind s.order,
          Guarantees-lift s.order,
          Guarantees-current_time s.order,
          claim_idempotency-Guarantees M s.order s.records,
          Guarantees-atomically s.order,
          s.locks,
          locked_or_throw-Guarantees s.order,
          refund_locked-Guarantees,
        )
        depth 20
