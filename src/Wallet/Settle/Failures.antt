-- ===== src/Wallet/Settle/Failures.antt =====
-- Settlements that fail after the model's wallet has been credited.
use red_room_rewards.Prelude.{◌+ℤ◌, String, Option, true, suc, ◌≡◌, refl, none, some, false, ◌==◌}
use red_room_rewards.Domain.{
  held, settling, is_held, EscrowSettleRequest, optimistic_lock, user_wallet_not_found,
}
use red_room_rewards.Store.{Mongo, Db}
use red_room_rewards.Store.Docs.{Wallet, ModelWallet, EscrowItem}
use red_room_rewards.Action.{Env, ok, err, alone, ◌>>=◌}
use red_room_rewards.Service.{State}
use red_room_rewards.Wallet.Config.{Config}
use red_room_rewards.Ledger.Idempotency.Claims.{record_of}
use red_room_rewards.Wallet.Steps.{
  require_token, find_wallet, find_model_wallet, get_or_create_model_wallet, or_create_model_wallet,
  unlocked,
}
use red_room_rewards.Wallet.Steps.Laws.{
  update_wallet_stale, update_model_wallet_current, set_escrow_found,
}
use red_room_rewards.Wallet.Settle.{
  credited_model, released_wallet, after_release, settle_locked, settle_escrow,
}
use red_room_rewards.Wallet.Settle.Alone.{locked_world, settle_claimed}

module _ (M : Mongo) (cfg : Config) (r : EscrowSettleRequest) (x : EscrowItem) (w : State M) where
  -- Another request replaces the user's wallet by `u'` between the read and the update, which are the
  -- third and the fourth call of the database, and does nothing else.
  pub record Intervenes (u' : Wallet) (e : Env (Db M)) : Type 0 where
    pub first : (d : Db M) → e.others w.clock d ≡ d
    pub second : (d : Db M) → e.others (suc w.clock) d ≡ d
    pub third : (d : Db M) → e.others (suc (suc w.clock)) d ≡ d
    pub fourth :
        (d : Db M)
        → e.others (suc (suc (suc w.clock))) d
          ≡ record d { wallets = M.wallets.put x.user_id u' d.wallets }
    pub fifth : (d : Db M) → e.others (suc (suc (suc (suc w.clock)))) d ≡ d

  -- If another request gives the user's wallet a different version between the read and the
  -- update, and every item and wallet involved is there, the settlement of the locked item fails
  -- with a lock error and the item is held again,
  -- but the model's earned balance keeps the amount that was added to it, and the user's wallet is as
  -- the other request left it.
  pub settle_conflict :
      (u u' : Wallet) (m : ModelWallet) (y : EscrowItem) (e : Env (Db M))
      → Intervenes u' e
      → M.wallets.get x.user_id w.db.wallets ≡ some u
      → M.model_wallets.get r.model_id w.db.model_wallets ≡ some m
      → M.escrow_items.get r.escrow_id w.db.escrow_items ≡ some y
      → (u'.version == u.version) ≡ false
      → let (result, w') = settle_locked M cfg r x e w in
        (result ≡ err (optimistic_lock "wallet" x.user_id))
        × (M.model_wallets.get r.model_id w'.db.model_wallets
            ≡ some (record m {
              earned_balance = m.earned_balance +ℤ r.amount;
              version = suc m.version;
            }))
        × (M.wallets.get x.user_id w'.db.wallets ≡ some u')
        × (M.escrow_items.get r.escrow_id w'.db.escrow_items
            ≡ some (record y { status = held; processed_at = none }))
  unfolding settle_locked ◌>>=◌ get_or_create_model_wallet or_create_model_wallet find_model_wallet
      find_wallet after_release credited_model
  settle_conflict u u' m y e others user model item moved =
      let credited : Db M = record w.db {
        model_wallets =
            M.model_wallets.put r.model_id (credited_model r.amount m m) w.db.model_wallets;
      } in
      let struck : Db M = record credited { wallets = M.wallets.put x.user_id u' w.db.wallets } in
      rw (others.first w.db) (
        rw model (
          rw (others.second w.db) (
            rw (update_model_wallet_current M r.model_id w.db (credited_model r.amount m) m model) (
              rw (others.third credited) (
                rw user (
                  rw (others.fourth credited) (
                    rw
                      (update_wallet_stale M x.user_id struck (λ v. v.version == u.version)
                        (released_wallet r.amount) u'
                        (M.wallets.get-put_self x.user_id u' w.db.wallets) moved)
                      (rw (others.fifth struck) (
                        rw (set_escrow_found M r.escrow_id struck unlocked y item) (
                          refl,
                          M.model_wallets.get-put_self _ _ w.db.model_wallets,
                          M.wallets.get-put_self _ _ w.db.wallets,
                          M.escrow_items.get-put_self _ _ w.db.escrow_items,
                        ))))))))))

-- The whole operation.
module _ (M : Mongo) (cfg : Config) (r : EscrowSettleRequest) (e : Env (Db M)) where
  -- If the item's user has no wallet, a settlement of the held item that runs alone, with a token
  -- and a free idempotency key, fails although the wallet of the model, which exists, keeps the
  -- amount that was added to its earned balance, and the item stays locked in the state settling.
  pub settle_without_user :
      (token : Option String) (x : EscrowItem) (m : ModelWallet) (w : State M)
      → require_token token ≡ ok tt
      → record_of M r.idempotency_key "settle_escrow" w.db ≡ none
      → M.escrow_items.get r.escrow_id w.db.escrow_items ≡ some x
      → is_held x.status ≡ true
      → M.wallets.get x.user_id w.db.wallets ≡ none
      → M.model_wallets.get r.model_id w.db.model_wallets ≡ some m
      → let (result, w') = settle_escrow M cfg r token (alone e) w in
        (result ≡ err user_wallet_not_found)
        × (M.model_wallets.get r.model_id w'.db.model_wallets
            ≡ some (record m {
              earned_balance = m.earned_balance +ℤ r.amount;
              version = suc m.version;
            }))
        × (M.escrow_items.get r.escrow_id w'.db.escrow_items
            ≡ some
                (record x { status = settling; processed_at = some (e.now (suc (suc w.clock))) }))
  unfolding settle_locked ◌>>=◌ get_or_create_model_wallet or_create_model_wallet find_model_wallet
      find_wallet credited_model
  settle_without_user token x m w given free found is user model =
      let w' = locked_world M cfg r e x w in
      rw (settle_claimed M cfg r e token x w given free found is) (
        rw model (
          rw (update_model_wallet_current M r.model_id w'.db (credited_model r.amount m) m model) (
            rw user (
              refl,
              M.model_wallets.get-put_self _ _ w.db.model_wallets,
              M.escrow_items.get-put_self _ _ w.db.escrow_items,
            ))))
