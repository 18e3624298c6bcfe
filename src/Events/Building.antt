-- ===== src/Events/Building.antt =====
-- `EventBuilder.createBase` of events/event-bus.ts, and the events that the four methods of
-- events/wallet-event-publisher.ts build from their parameters. Identifier and time come from uuid
-- and the clock.
use red_room_rewards.Prelude.{ℕ, String, none}
use red_room_rewards.WalletEvents
use red_room_rewards.Events.Types.{BaseRewardEvent, Payload, RewardEvent}

unfoldable pub create_base : String → ℕ → String → BaseRewardEvent
create_base id now key = record {
  event_id = id;
  idempotency_key = key;
  timestamp = now;
  correlation_id = none;
  source = "reward-service";
  version = "1.0";
}

unfoldable pub held_event : String → ℕ → WalletEvents.EscrowHeld → RewardEvent
unfolding create_base
held_event id now p = record {
  base = create_base id now p.idempotency_key;
  payload = Payload.escrow_held (record {
    user_id = p.user_id;
    escrow_id = p.escrow_id;
    amount = p.amount;
    reason = p.reason;
    queue_item_id = p.queue_item_id;
    feature_type = p.feature_type;
    transaction_id = p.transaction_id;
    user_available_balance = p.user_available_balance;
    user_escrow_balance = p.user_escrow_balance;
    metadata = p.metadata;
  });
}

unfoldable pub settled_event : String → ℕ → WalletEvents.EscrowSettled → RewardEvent
unfolding create_base
settled_event id now p = record {
  base = create_base id now p.idempotency_key;
  payload = Payload.escrow_settled (record {
    user_id = p.user_id;
    model_id = p.model_id;
    escrow_id = p.escrow_id;
    amount = p.amount;
    reason = p.reason;
    queue_item_id = p.queue_item_id;
    transaction_id = p.transaction_id;
    model_earned_balance = p.model_earned_balance;
    metadata = p.metadata;
  });
}

unfoldable pub refunded_event : String → ℕ → WalletEvents.EscrowRefunded → RewardEvent
unfolding create_base
refunded_event id now p = record {
  base = create_base id now p.idempotency_key;
  payload = Payload.escrow_refunded (record {
    user_id = p.user_id;
    escrow_id = p.escrow_id;
    amount = p.amount;
    reason = p.reason;
    queue_item_id = p.queue_item_id;
    transaction_id = p.transaction_id;
    user_available_balance = p.user_available_balance;
    user_escrow_balance = p.user_escrow_balance;
    metadata = p.metadata;
  });
}

unfoldable pub partial_settled_event : String → ℕ → WalletEvents.EscrowPartialSettled → RewardEvent
unfolding create_base
partial_settled_event id now p = record {
  base = create_base id now p.idempotency_key;
  payload = Payload.escrow_partial_settled (record {
    user_id = p.user_id;
    model_id = p.model_id;
    escrow_id = p.escrow_id;
    refund_amount = p.refund_amount;
    settle_amount = p.settle_amount;
    reason = p.reason;
    queue_item_id = p.queue_item_id;
    transaction_id = p.transaction_id;
    user_available_balance = p.user_available_balance;
    user_escrow_balance = p.user_escrow_balance;
    model_earned_balance = p.model_earned_balance;
    metadata = p.metadata;
  });
}

-- The event that the publisher hands to the bus.
unfoldable pub built : String → ℕ → WalletEvents.WalletEvent → RewardEvent
unfolding held_event settled_event refunded_event partial_settled_event
built id now (WalletEvents.WalletEvent.escrow_held p) = held_event id now p
built id now (WalletEvents.WalletEvent.escrow_settled p) = settled_event id now p
built id now (WalletEvents.WalletEvent.escrow_refunded p) = refunded_event id now p
built id now (WalletEvents.WalletEvent.escrow_partial_settled p) = partial_settled_event id now p
