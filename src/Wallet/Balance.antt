-- ===== src/Wallet/Balance.antt =====
-- `getUserBalance` and `getModelBalance` of wallets/wallet.service.ts.
use red_room_rewards.Prelude.{ℤ, pos, ◌+ℤ◌, String, Option, none, some}
use red_room_rewards.Store.{Mongo}
use red_room_rewards.Store.Docs.{Wallet, ModelWallet}
use red_room_rewards.Action.{pure, atomically, ◌>>=◌}
use red_room_rewards.Service.{Service}
use red_room_rewards.Wallet.Steps.{find_wallet, find_model_wallet}

pub record UserBalance : Type 0 where
  pub available : ℤ
  pub escrow : ℤ
  pub total : ℤ

unfoldable pub balance_of : Option Wallet → UserBalance
balance_of none = record { available = pos 0; escrow = pos 0; total = pos 0 }
balance_of (some w) = record {
  available = w.available_balance;
  escrow = w.escrow_balance;
  total = w.available_balance +ℤ w.escrow_balance;
}

unfoldable pub earned_of : Option ModelWallet → ℤ
earned_of none = pos 0
earned_of (some w) = w.earned_balance

module _ (M : Mongo) where
  unfoldable pub get_user_balance : String → Service M UserBalance
  get_user_balance user_id = do found ← atomically (find_wallet M user_id); pure (balance_of found)

  unfoldable pub get_model_balance : String → Service M ℤ
  get_model_balance model_id = do
    found ← atomically (find_model_wallet M model_id)
    pure (earned_of found)
