-- ===== src/Wallet/Steps/Laws.antt =====
-- The results of the database calls of wallets/wallet.service.ts, by what the database has.
use red_room_rewards.Prelude.{ℕ, String, ◌≡◌, none, some, Bool, true, false, ◌==◌, ==_refl}
use red_room_rewards.Domain.{EscrowStatus, is_held}
use red_room_rewards.Store.{Mongo, Db}
use red_room_rewards.Store.Docs.{Wallet, ModelWallet, EscrowItem}
use red_room_rewards.Action.{ok}
use red_room_rewards.Wallet.Steps.{update_wallet, update_model_wallet, lock_escrow, set_escrow}

-- The document that a lock leaves.
abbrev pub locked_item : EscrowStatus → ℕ → EscrowItem → EscrowItem
locked_item status now x = record x { status = status; processed_at = some now }

module _ (M : Mongo) (id : String) (d : Db M) where
  -- An update on the version that was read, with no write in between.
  pub update_wallet_current :
      (f : Wallet → Wallet) (x : Wallet)
      → M.wallets.get id d.wallets ≡ some x
      → update_wallet M id (λ v. v.version == x.version) f d
        ≡ (ok (some (f x)), record d { wallets = M.wallets.put id (f x) d.wallets })
  unfolding update_wallet
  update_wallet_current f x found = rw (found, update_wallet) (rw (==_refl x.version))

  -- An update whose filter passes.
  pub update_wallet_fits :
      (p : Wallet → Bool) (f : Wallet → Wallet) (x : Wallet)
      → M.wallets.get id d.wallets ≡ some x
      → p x ≡ true
      → update_wallet M id p f d
        ≡ (ok (some (f x)), record d { wallets = M.wallets.put id (f x) d.wallets })
  unfolding update_wallet
  update_wallet_fits p f x found fits = rw (found, update_wallet) (rw fits)

  -- An update whose filter fails.
  pub update_wallet_stale :
      (p : Wallet → Bool) (f : Wallet → Wallet) (x : Wallet)
      → M.wallets.get id d.wallets ≡ some x
      → p x ≡ false
      → update_wallet M id p f d ≡ (ok none, d)
  unfolding update_wallet
  update_wallet_stale p f x found fails = rw (found, update_wallet) (rw fails)

  pub update_model_wallet_current :
      (f : ModelWallet → ModelWallet) (x : ModelWallet)
      → M.model_wallets.get id d.model_wallets ≡ some x
      → update_model_wallet M id (λ v. v.version == x.version) f d ≡ (
        ok (some (f x)),
        record d { model_wallets = M.model_wallets.put id (f x) d.model_wallets },
      )
  unfolding update_model_wallet
  update_model_wallet_current f x found = rw (found, update_model_wallet) (rw (==_refl x.version))

  pub update_model_wallet_stale :
      (p : ModelWallet → Bool) (f : ModelWallet → ModelWallet) (x : ModelWallet)
      → M.model_wallets.get id d.model_wallets ≡ some x
      → p x ≡ false
      → update_model_wallet M id p f d ≡ (ok none, d)
  unfolding update_model_wallet
  update_model_wallet_stale p f x found fails = rw (found, update_model_wallet) (rw fails)

  pub lock_escrow_held :
      (status : EscrowStatus) (now : ℕ) (x : EscrowItem)
      → M.escrow_items.get id d.escrow_items ≡ some x
      → is_held x.status ≡ true
      → lock_escrow M id status now d ≡ (
        ok (some x),
        record d { escrow_items = M.escrow_items.put id (locked_item status now x) d.escrow_items },
      )
  unfolding lock_escrow
  lock_escrow_held status now x found is = rw (found, lock_escrow) (rw is)

  pub lock_escrow_busy :
      (status : EscrowStatus) (now : ℕ) (x : EscrowItem)
      → M.escrow_items.get id d.escrow_items ≡ some x
      → is_held x.status ≡ false
      → lock_escrow M id status now d ≡ (ok none, d)
  unfolding lock_escrow
  lock_escrow_busy status now x found is = rw (found, lock_escrow) (rw is)

  pub lock_escrow_missing :
      (status : EscrowStatus) (now : ℕ)
      → M.escrow_items.get id d.escrow_items ≡ none
      → lock_escrow M id status now d ≡ (ok none, d)
  unfolding lock_escrow
  lock_escrow_missing status now missing = rw (missing, lock_escrow)

  pub set_escrow_found :
      (f : EscrowItem → EscrowItem) (x : EscrowItem)
      → M.escrow_items.get id d.escrow_items ≡ some x
      → set_escrow M id f d
        ≡ (ok tt, record d { escrow_items = M.escrow_items.put id (f x) d.escrow_items })
  unfolding set_escrow
  set_escrow_found f x found = rw (found, set_escrow)
