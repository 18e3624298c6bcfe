-- ===== src/Events/Tests.antt =====
-- Events, subscriptions and a cache to run the event bus and the balance cache on.
mod Bus
mod Cache
use red_room_rewards.Prelude.{
  ℕ, ltb, ℤ, pos, String, List, [], ◌∷◌, Option, none, some, if◌then◌else◌,
}
use red_room_rewards.Domain.{AccountType, BalanceState, available}
use red_room_rewards.Events.Types.{
  WalletEventType, BaseRewardEvent, Payload, RewardEvent, EventSubscription,
}

abbrev pub base : String → String → ℕ → BaseRewardEvent
base id key now = record {
  event_id = id;
  idempotency_key = key;
  timestamp = now;
  correlation_id = none;
  source = "reward-service";
  version = "1.0";
}

abbrev pub held : ℕ → RewardEvent
held now = record {
  base = base "e1" "k1" now;
  payload = Payload.escrow_held (record {
    user_id = "ann";
    escrow_id = "x";
    amount = pos 30;
    reason = "tip";
    queue_item_id = "q";
    feature_type = "chat";
    transaction_id = "t";
    user_available_balance = pos 70;
    user_escrow_balance = pos 30;
    metadata = none;
  });
}

-- Another event and type under the key of the first.
abbrev pub settled : ℕ → RewardEvent
settled now = record {
  base = base "e2" "k1" now;
  payload = Payload.escrow_settled (record {
    user_id = "ann";
    model_id = "eve";
    escrow_id = "x";
    amount = pos 30;
    reason = "tip";
    queue_item_id = "q";
    transaction_id = "t";
    model_earned_balance = pos 30;
    metadata = none;
  });
}

abbrev pub updated : ℕ → RewardEvent
updated now = record {
  base = base "e3" "" now;
  payload = Payload.balance_updated (record {
    account_id = "ann";
    account_type = AccountType.user;
    balance_state = available;
    balance_before = pos 70;
    balance_after = pos 90;
    change_amount = pos 20;
    reason = "bonus";
    transaction_id = "t";
    ledger_entry_id = "l";
    metadata = none;
  });
}

-- Fails at its first `n` attempts at an event.
abbrev pub subscriber : String → Option ℤ → ℕ → EventSubscription
subscriber id priority n = record {
  subscriber_id = id;
  event_types = WalletEventType.escrow_held ∷ WalletEventType.escrow_settled ∷ [];
  handler = λ e attempt. if ltb attempt n then some "down" else none;
  priority = priority;
}
