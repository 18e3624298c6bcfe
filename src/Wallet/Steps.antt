-- ===== src/Wallet/Steps.antt =====
-- The database calls of wallets/wallet.service.ts, each of them one atomic step, and the short
-- sequences of them that several methods share.
pub mod Laws
use red_room_rewards.Prelude.{
  ℕ, ℤ, pos, ltb_ℤ, String, Bool, true, false, Option, none, some, any, str_eq, is_empty,
  if◌then◌else◌,
}
use red_room_rewards.Domain.{
  EscrowStatus, held, is_held, Error, duplicate_key, validation_failed, escrow_not_found,
  escrow_already_processed, authorization_required, idempotency_key_used,
}
use red_room_rewards.Store.{Mongo, Db}
use red_room_rewards.Store.Docs.{Wallet, ModelWallet, EscrowItem, earnings}
use red_room_rewards.Action.{Result, ok, err, pure, throw, lift, atomically, ◌>>=◌}
use red_room_rewards.Service.{Service}

abbrev pub new_wallet : String → String → Wallet
new_wallet user_id currency = record {
  user_id = user_id;
  available_balance = pos 0;
  escrow_balance = pos 0;
  currency = currency;
  version = 0;
}

abbrev pub new_model_wallet : String → String → ModelWallet
new_model_wallet model_id currency = record {
  model_id = model_id;
  earned_balance = pos 0;
  currency = currency;
  type = earnings;
  version = 0;
}

-- `!authorization || !authorization.token`
unfoldable pub require_token : Option String → Result (Unit {0})
require_token none = err authorization_required
require_token (some t) = if is_empty t then err authorization_required else ok tt

abbrev pub require_claim : Bool → Result (Unit {0})
require_claim true = ok tt
require_claim false = err idempotency_key_used

abbrev pub or_fail : {A : Type 0} → Option A → Error → Result A
or_fail none x = err x
or_fail (some a) x = ok a

-- `{ status: 'held', processedAt: null }`
abbrev pub unlocked : EscrowItem → EscrowItem
unlocked x = record x { status = held; processed_at = none }

module _ (M : Mongo) where
  unfoldable pub find_wallet : String → Db M → Result (Option Wallet) × Db M
  find_wallet id d = (ok (M.wallets.get id d.wallets), d)

  -- `WalletModel.create(…)` under the unique index on `userId`.
  unfoldable pub create_wallet : Wallet → Db M → Result Wallet × Db M
  create_wallet w d = elim (M.wallets.get w.user_id d.wallets) [
    | some old ↦ (err (duplicate_key "userId"), d)
    | none ↦ (ok w, record d { wallets = M.wallets.put w.user_id w d.wallets })
  ]

  -- `WalletModel.findOneAndUpdate({ userId, … }, …, { new: true })`: null if the filter fails.
  unfoldable pub update_wallet :
      String → (Wallet → Bool) → (Wallet → Wallet) → Db M → Result (Option Wallet) × Db M
  update_wallet id p f d = elim (M.wallets.get id d.wallets) [
    | none ↦ (ok none, d)
    | some w ↦
        if p w
        then (ok (some (f w)), record d { wallets = M.wallets.put id (f w) d.wallets })
        else (ok none, d)
  ]

  unfoldable pub find_model_wallet : String → Db M → Result (Option ModelWallet) × Db M
  find_model_wallet id d = (ok (M.model_wallets.get id d.model_wallets), d)

  unfoldable pub create_model_wallet : ModelWallet → Db M → Result ModelWallet × Db M
  create_model_wallet w d = elim (M.model_wallets.get w.model_id d.model_wallets) [
    | some old ↦ (err (duplicate_key "modelId"), d)
    | none ↦ (ok w, record d { model_wallets = M.model_wallets.put w.model_id w d.model_wallets })
  ]

  unfoldable pub update_model_wallet :
      String
      → (ModelWallet → Bool)
      → (ModelWallet → ModelWallet)
      → Db M
      → Result (Option ModelWallet) × Db M
  update_model_wallet id p f d = elim (M.model_wallets.get id d.model_wallets) [
    | none ↦ (ok none, d)
    | some w ↦
        if p w
        then (
          ok (some (f w)),
          record d { model_wallets = M.model_wallets.put id (f w) d.model_wallets },
        )
        else (ok none, d)
  ]

  -- `EscrowItemModel.create(…)`: the schema's minimum, then the unique indexes on `escrowId` and on
  -- `queueItemId`.
  unfoldable pub create_escrow : EscrowItem → Db M → Result EscrowItem × Db M
  create_escrow x d =
      if ltb_ℤ x.amount (pos 0)
      then (err (validation_failed "amount"), d)
      else elim (M.escrow_items.get x.escrow_id d.escrow_items) [
        | some old ↦ (err (duplicate_key "escrowId"), d)
        | none ↦
            if any (λ y. true)
              (M.escrow_items.find (λ y. str_eq y.queue_item_id x.queue_item_id) d.escrow_items)
            then (err (duplicate_key "queueItemId"), d)
            else (ok x, record d { escrow_items = M.escrow_items.put x.escrow_id x d.escrow_items })
      ]

  unfoldable pub delete_escrow : String → Db M → Result (Unit {0}) × Db M
  delete_escrow id d = (ok tt, record d { escrow_items = M.escrow_items.remove id d.escrow_items })

  -- The status from `held` to `status`; the answer is the document before the change.
  unfoldable pub lock_escrow : String → EscrowStatus → ℕ → Db M → Result (Option EscrowItem) × Db M
  lock_escrow id status now d = elim (M.escrow_items.get id d.escrow_items) [
    | none ↦ (ok none, d)
    | some x ↦
        if is_held x.status
        then (
          ok (some x),
          record d {
            escrow_items =
                M.escrow_items.put id (record x { status = status; processed_at = some now })
                  d.escrow_items;
          },
        )
        else (ok none, d)
  ]

  -- `EscrowItemModel.updateOne({ escrowId }, …)`
  unfoldable pub set_escrow : String → (EscrowItem → EscrowItem) → Db M → Result (Unit {0}) × Db M
  set_escrow id f d = elim (M.escrow_items.get id d.escrow_items) [
    | none ↦ (ok tt, d)
    | some x ↦ (ok tt, record d { escrow_items = M.escrow_items.put id (f x) d.escrow_items })
  ]

  unfoldable pub find_escrow : String → Db M → Result (Option EscrowItem) × Db M
  find_escrow id d = (ok (M.escrow_items.get id d.escrow_items), d)

  unfoldable pub or_create_wallet : String → String → Option Wallet → Service M Wallet
  or_create_wallet currency id none = atomically (create_wallet (new_wallet id currency))
  or_create_wallet currency id (some w) = pure w

  -- `findOne`, and `create` if there is none.
  unfoldable pub get_or_create_wallet : String → String → Service M Wallet
  get_or_create_wallet currency id = do
    found ← atomically (find_wallet id)
    or_create_wallet currency id found

  unfoldable pub or_create_model_wallet :
      String → String → Option ModelWallet → Service M ModelWallet
  or_create_model_wallet currency id none =
      atomically (create_model_wallet (new_model_wallet id currency))
  or_create_model_wallet currency id (some w) = pure w

  unfoldable pub get_or_create_model_wallet : String → String → Service M ModelWallet
  get_or_create_model_wallet currency id = do
    found ← atomically (find_model_wallet id)
    or_create_model_wallet currency id found

  -- Why an escrow item could not be locked.
  unfoldable pub not_lockable : String → Option EscrowItem → Error
  not_lockable id none = escrow_not_found id
  not_lockable id (some x) = escrow_already_processed id x.status

  unfoldable pub locked_or_throw : String → Option EscrowItem → Service M EscrowItem
  locked_or_throw id none = do
    existing ← atomically (find_escrow id)
    throw (not_lockable id existing)
  locked_or_throw id (some x) = pure x
