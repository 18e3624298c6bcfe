-- ===== src/Wallet/Hold/Conflict.antt =====
-- An attempt of `holdInEscrow` that loses the race for the wallet.
use red_room_rewards.Prelude.{suc, ◌≡◌, refl, false, none, some, ◌==◌}
use red_room_rewards.Domain.{EscrowHoldRequest, optimistic_lock}
use red_room_rewards.Store.{Mongo, Db}
use red_room_rewards.Store.Docs.{Wallet}
use red_room_rewards.Action.{Env, err, ◌>>=◌}
use red_room_rewards.Service.{State}
use red_room_rewards.Wallet.Config.{Config}
use red_room_rewards.Wallet.Steps.{
  find_wallet, get_or_create_wallet, or_create_wallet, delete_escrow,
}
use red_room_rewards.Wallet.Steps.Laws.{update_wallet_stale}
use red_room_rewards.Wallet.Hold.{held_item, held_wallet, after_hold, execute_hold_in_escrow}
use red_room_rewards.Wallet.Hold.Run.{CanHold, check_balance_covered, create_escrow_new}

module _ (M : Mongo) (cfg : Config) (r : EscrowHoldRequest) (x' : Wallet) (e : Env (Db M))
    (w : State M) where
  -- Another request replaces the user's wallet by `x'` between the read and the update, which are the
  -- first and the third call of the database, and does nothing else.
  pub record Intervenes : Type 0 where
    pub first : (d : Db M) → e.others w.clock d ≡ d
    pub second : (d : Db M) → e.others (suc (suc (suc w.clock))) d ≡ d
    pub third :
        (d : Db M)
        → e.others (suc (suc (suc (suc w.clock)))) d
          ≡ record d { wallets = M.wallets.put r.user_id x' d.wallets }
    pub fourth : (d : Db M) → e.others (suc (suc (suc (suc (suc w.clock))))) d ≡ d

  -- If another request gives the user's wallet a different version between the read and the update,
  -- an attempt of a hold that is otherwise possible fails with a lock error and leaves nothing of
  -- its own: its escrow item is gone, the user's wallet is as the other request left it, and the
  -- model's wallets, the ledger and the records are as they were.
  pub hold_conflict :
      (x : Wallet)
      → Intervenes
      → CanHold M cfg r e x (e.uuid (suc w.clock)) w.db
      → (x'.version == x.version) ≡ false
      → ((execute_hold_in_escrow M cfg r e w).0 ≡ err (optimistic_lock "wallet" r.user_id))
        × (M.escrow_items.get
              (e.uuid (suc w.clock))
              (execute_hold_in_escrow M cfg r e w).1.db.escrow_items
            ≡ none)
        × (M.wallets.get r.user_id (execute_hold_in_escrow M cfg r e w).1.db.wallets ≡ some x')
        × ((execute_hold_in_escrow M cfg r e w).1.db.model_wallets ≡ w.db.model_wallets)
        × ((execute_hold_in_escrow M cfg r e w).1.db.ledger_entries ≡ w.db.ledger_entries)
        × ((execute_hold_in_escrow M cfg r e w).1.db.idempotency_records ≡ w.db.idempotency_records)
  unfolding execute_hold_in_escrow ◌>>=◌ get_or_create_wallet or_create_wallet find_wallet
      after_hold delete_escrow
  hold_conflict x others can moved =
      let id = e.uuid (suc w.clock) in
      let now = e.now (suc (suc w.clock)) in
      let with_item : Db M = record w.db {
        escrow_items = M.escrow_items.put id (held_item r id now) w.db.escrow_items;
      } in
      let struck : Db M = record with_item { wallets = M.wallets.put r.user_id x' w.db.wallets } in
      rw (others.first w.db) (
        rw can.found (
          rw (check_balance_covered M cfg r e x can.covered) (
            rw (others.second w.db) (
              rw (create_escrow_new M cfg r e x id now w.db can) (
                rw (others.third with_item) (
                  rw
                    (update_wallet_stale M r.user_id struck (λ v. v.version == x.version)
                      (held_wallet r.amount x) x' (M.wallets.get-put_self r.user_id x' w.db.wallets)
                      moved)
                    (rw (others.fourth struck) (
                      refl,
                      M.escrow_items.get-remove_self id _,
                      M.wallets.get-put_self r.user_id x' w.db.wallets,
                      refl,
                      refl,
                      refl,
                    ))))))))
