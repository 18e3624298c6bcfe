-- ===== src/Wallet/Guarantees/Shared.antt =====
-- The guarantees of the short sequences of steps that several methods of wallets/wallet.service.ts
-- share.
use red_room_rewards.Prelude.{String, Option, none, some}
use red_room_rewards.Store.{Mongo, Db}
use red_room_rewards.Store.Docs.{ModelWallet, EscrowItem}
use red_room_rewards.Action.{atomically}
use red_room_rewards.Action.Keeps.{
  Preorder, Guarantees, Guarantees-pure, Guarantees-throw, Guarantees-atomically, Guarantees-bind,
}
use red_room_rewards.WalletEvents.{WalletEvent}
use red_room_rewards.Wallet.Steps.{
  new_model_wallet, find_wallet, find_model_wallet, create_model_wallet, find_escrow,
  or_create_model_wallet, get_or_create_model_wallet, locked_or_throw, not_lockable,
}

module _ {M : Mongo} {G : Db M → Db M → Type 0} (o : Preorder G) where
  pub find_wallet-Guarantees :
      (id : String) → Guarantees {Event = WalletEvent} G (atomically (find_wallet M id))
  unfolding find_wallet
  find_wallet-Guarantees id = Guarantees-atomically o (find_wallet M id) o.rel_refl

  pub locked_or_throw-Guarantees :
      (id : String) (found : Option EscrowItem) → Guarantees G (locked_or_throw M id found)
  unfolding locked_or_throw find_escrow
  locked_or_throw-Guarantees id none =
      Guarantees-bind o _ _ (Guarantees-atomically o (find_escrow M id) o.rel_refl)
        (λ x. Guarantees-throw o (not_lockable M id x))
  locked_or_throw-Guarantees id (some x) = Guarantees-pure o x

  module _
      (creates : (id currency : String) (d : Db M)
        → G d (create_model_wallet M (new_model_wallet id currency) d).1) where
    pub get_or_create_model_wallet-Guarantees :
        (currency id : String) → Guarantees G (get_or_create_model_wallet M currency id)
    unfolding get_or_create_model_wallet find_model_wallet
    get_or_create_model_wallet-Guarantees currency id =
        Guarantees-bind o _ _ (Guarantees-atomically o (find_model_wallet M id) o.rel_refl) go
      where
        go :
            (found : Option ModelWallet) → Guarantees G (or_create_model_wallet M currency id found)
        go none =
            unfold or_create_model_wallet in
            Guarantees-atomically o (create_model_wallet M (new_model_wallet id currency))
              (creates id currency)
        go (some w) = unfold or_create_model_wallet in Guarantees-pure o w
