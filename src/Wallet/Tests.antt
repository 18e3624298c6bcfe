-- ===== src/Wallet/Tests.antt =====
-- Runs of the wallet service at concrete inputs.
pub mod Invariants
pub mod Holds
pub mod Settlements
pub mod Refunds
pub mod Partials
pub mod Conflicts
use red_room_rewards.Prelude.{
  is_blank, ℕ, zero, suc, pos, String, ◌≡◌, refl, true, [], ◌∷◌, Option, none, some,
}
use red_room_rewards.Domain.{
  held, EscrowHoldRequest, EscrowSettleRequest, EscrowRefundRequest, EscrowPartialSettleRequest,
}
use red_room_rewards.Store.{Db}
use red_room_rewards.Store.Docs.{Wallet, ModelWallet, EscrowItem, earnings}
use red_room_rewards.Store.Memory.{memory, empty_db}
use red_room_rewards.Action.{Env, World, alone}
use red_room_rewards.Service.{State}
use red_room_rewards.Ledger.Entries.Alone.{MakesIds}
use red_room_rewards.Wallet.Config.{Config}

abbrev pub config : Config
config = record { max_retry_attempts = 3; default_currency = "points"; ledger_currency = "points" }

abbrev pub env : Env (Db memory)
env = record { others = λ n d. d; uuid = λ n. "id"; now = λ n. n; delivers = λ n. true }

pub env-MakesIds : MakesIds env
unfolding is_blank
env-MakesIds = record { given = λ n. refl; shown = λ n. refl }

abbrev pub user_wallet : Wallet
user_wallet = record {
  user_id = "ann";
  available_balance = pos 5000;
  escrow_balance = pos 2000;
  currency = "points";
  version = 3;
}

abbrev pub model_wallet : ModelWallet
model_wallet = record {
  model_id = "mia";
  earned_balance = pos 100;
  currency = "points";
  type = earnings;
  version = 1;
}

abbrev pub held_escrow : EscrowItem
held_escrow = record {
  escrow_id = "e1";
  user_id = "ann";
  amount = pos 2000;
  status = held;
  queue_item_id = "q1";
  feature_type = "chip_menu";
  reason = "chip_menu_purchase";
  metadata = none;
  created_at = 0;
  processed_at = none;
  model_id = none;
}

abbrev pub start : State memory
start = record {
  clock = 0;
  db = record empty_db {
    wallets = ("ann", user_wallet) ∷ [];
    model_wallets = ("mia", model_wallet) ∷ [];
    escrow_items = ("e1", held_escrow) ∷ [];
  };
  published = [];
  publish_errors = 0;
}

-- The same without the user's wallet.
abbrev pub no_user : State memory
no_user = record start { db = record start.db { wallets = [] } }

abbrev pub hold_request : EscrowHoldRequest
hold_request = record {
  user_id = "ann";
  amount = pos 1500;
  reason = "chip_menu_purchase";
  queue_item_id = "q2";
  feature_type = "chip_menu";
  idempotency_key = "k1";
  request_id = "r1";
  metadata = none;
}

-- More than the user has.
abbrev pub large_hold : EscrowHoldRequest
large_hold = record hold_request { amount = pos 6000 }

abbrev pub settle_request : EscrowSettleRequest
settle_request = record {
  escrow_id = "e1";
  model_id = "mia";
  amount = pos 2000;
  queue_item_id = "q1";
  reason = "performance_completed";
  idempotency_key = "k2";
  request_id = "r2";
  metadata = none;
}

abbrev pub refund_request : EscrowRefundRequest
refund_request = record {
  escrow_id = "e1";
  user_id = "ann";
  amount = pos 2000;
  queue_item_id = "q1";
  reason = "user_disconnected";
  idempotency_key = "k3";
  request_id = "r3";
  metadata = none;
}

abbrev pub partial_request : EscrowPartialSettleRequest
partial_request = record {
  escrow_id = "e1";
  user_id = "ann";
  model_id = "mia";
  refund_amount = pos 500;
  settle_amount = pos 1500;
  queue_item_id = "q1";
  reason = "partial_performance";
  idempotency_key = "k4";
  request_id = "r4";
  metadata = none;
}

abbrev pub token : Option String
token = some "token"
