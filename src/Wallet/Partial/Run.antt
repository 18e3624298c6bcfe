-- ===== src/Wallet/Partial/Run.antt =====
-- The steps of `partialSettleEscrow` that runs alone, in the order of the code.
use red_room_rewards.Prelude.{
  suc, ℤ, ◌+ℤ◌, ◌<ℤ◌, ◌≤ℤ◌, abs, ◌-ℤ◌, String, ◌≡◌, true, Option, none, some, arith,
}
use red_room_rewards.Domain.{
  partial_settling, is_held, EscrowPartialSettleRequest, amounts_must_equal_escrow,
}
use red_room_rewards.Store.{Mongo, Db}
use red_room_rewards.Store.Docs.{Wallet, ModelWallet, EscrowItem}
use red_room_rewards.Action.{Env, ok, err, alone, ◌>>=◌}
use red_room_rewards.Service.{State}
use red_room_rewards.Ledger.Idempotency.Claims.{record_of, with_claim, claim_free}
use red_room_rewards.Wallet.Config.{Config}
use red_room_rewards.Wallet.Steps.{
  find_wallet, find_model_wallet, get_or_create_model_wallet, or_create_model_wallet, require_token,
  locked_or_throw,
}
use red_room_rewards.Wallet.Steps.Laws.{
  locked_item, update_wallet_current, update_model_wallet_current, lock_escrow_held,
}
use red_room_rewards.Wallet.Settle.{credited_model}
use red_room_rewards.Wallet.Refund.{returned_wallet}
use red_room_rewards.Wallet.Partial.{
  tolerance, check_amounts, record_partial, after_credit, after_debit, partial_locked,
  partial_settle_escrow,
}
use red_room_rewards.Wallet.Partial.Recording.{KeysFree}

module _ (M : Mongo) (cfg : Config) (r : EscrowPartialSettleRequest) (e : Env (Db M)) where
  -- The parts differ from the item's amount by at most the tolerance.
  abbrev pub Covers : ℤ → Type 0
  Covers amount = abs (r.refund_amount +ℤ r.settle_amount -ℤ amount) ≤ℤ tolerance

  pub check-Covers : (amount : ℤ) → Covers amount → check_amounts r amount ≡ ok tt
  unfolding check_amounts
  check-Covers amount h = ground arith

  pub check_differs :
      (amount : ℤ)
      → tolerance <ℤ abs (r.refund_amount +ℤ r.settle_amount -ℤ amount)
      → check_amounts r amount ≡ err amounts_must_equal_escrow
  unfolding check_amounts
  check_differs amount h = ground arith

  -- The database has the held item `x`, the wallet `u` of the request's user and the model's wallet
  -- `m`, and the ledger keys are free.
  pub record CanSettle (x : EscrowItem) (u : Wallet) (m : ModelWallet) (d : Db M) : Type 0 where
    pub item : M.escrow_items.get r.escrow_id d.escrow_items ≡ some x
    pub is : is_held x.status ≡ true
    pub covers : Covers x.amount
    pub user : M.wallets.get r.user_id d.wallets ≡ some u
    pub model : M.model_wallets.get r.model_id d.model_wallets ≡ some m
    pub keys_free : KeysFree M cfg r e d

  abbrev pub user_after : EscrowItem → Wallet → Wallet
  user_after x u = returned_wallet r.refund_amount x.amount u

  -- Both wallets are updated.
  abbrev pub moved_world : EscrowItem → Wallet → ModelWallet → State M → State M
  moved_world x u m w = record w {
    clock = suc (suc (suc (suc w.clock)));
    db = record w.db {
      wallets = M.wallets.put r.user_id (user_after x u) w.db.wallets;
      model_wallets =
          M.model_wallets.put r.model_id (credited_model r.settle_amount m m) w.db.model_wallets;
    };
  }

  pub partial_locked_new :
      (x : EscrowItem) (u : Wallet) (m : ModelWallet) (w : State M)
      → Covers x.amount
      → M.wallets.get r.user_id w.db.wallets ≡ some u
      → M.model_wallets.get r.model_id w.db.model_wallets ≡ some m
      → partial_locked M cfg r x (alone e) w
        ≡ record_partial M cfg r u m (user_after x u) (alone e) (moved_world x u m w)
  unfolding partial_locked ◌>>=◌ get_or_create_model_wallet or_create_model_wallet find_model_wallet
      find_wallet after_debit after_credit
  partial_locked_new x u m w covers user model = rw (check-Covers x.amount covers) (
      rw user (
        rw model (
          rw
            (update_wallet_current M r.user_id w.db (returned_wallet r.refund_amount x.amount) u
              user)
            (rw (
              update_model_wallet_current M r.model_id
                (record w.db { wallets = M.wallets.put r.user_id (user_after x u) w.db.wallets })
                (credited_model r.settle_amount m) m model)))))

  abbrev pub item_before : EscrowItem → State M → EscrowItem
  item_before x w = locked_item partial_settling (e.now (suc (suc w.clock))) x

  -- After the claim and the lock.
  abbrev pub locked_world : EscrowItem → State M → State M
  locked_world x w = record w {
    clock = suc (suc (suc (suc w.clock)));
    db = record (with_claim M r.idempotency_key "partial_settle_escrow" none (e.now w.clock) w.db) {
      escrow_items = M.escrow_items.put r.escrow_id (item_before x w) w.db.escrow_items;
    };
  }

  pub partial_claimed :
      (token : Option String) (x : EscrowItem) (w : State M)
      → require_token token ≡ ok tt
      → record_of M r.idempotency_key "partial_settle_escrow" w.db ≡ none
      → M.escrow_items.get r.escrow_id w.db.escrow_items ≡ some x
      → is_held x.status ≡ true
      → partial_settle_escrow M cfg r token (alone e) w
        ≡ partial_locked M cfg r x (alone e) (locked_world x w)
  unfolding partial_settle_escrow ◌>>=◌ locked_or_throw
  partial_claimed token x w given free found is = rw given (
      rw (claim_free M r.idempotency_key "partial_settle_escrow" none e w free) (
        rw (
          lock_escrow_held M r.escrow_id
            (with_claim M r.idempotency_key "partial_settle_escrow" none (e.now w.clock) w.db)
            partial_settling (e.now (suc (suc w.clock))) x found is)))
