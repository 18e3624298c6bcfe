-- ===== src/Events/Tests/Bus.antt =====
-- Runs of the event bus of events/event-bus.ts.
use red_room_rewards.Prelude.{
  ◌+◌, pos, ◌≡◌, refl, ◌↔◌, true, false, [], ◌∷◌, none, some, All, length, inr, sort_by, sort_onto,
  insert_by, arith,
}
use red_room_rewards.Events.Types.{WalletEventType, EventSubscription}
use red_room_rewards.Events.Bus.{
  EventBusConfig, default_config, EventBus, new_bus, priority_of, subscribers_of, subscribe,
  subscribe_each, subscribe_to, is_duplicate, unsubscribe, unsubscribe_all,
}
use red_room_rewards.Events.Bus.Publish.{notify_subscriber, notify_rest, ignored, publish}
use red_room_rewards.Events.Bus.Calls.{subscribes, cleans, perform_all}
use red_room_rewards.Events.Bus.Order.{IsOrdered, perform_all-IsOrdered}
use red_room_rewards.Events.Bus.Once.{publish_once}
use red_room_rewards.Events.Bus.Retry.{Outcome, notify_subscriber-Outcome}
use red_room_rewards.Events.Bus.Delivery.{CanSucceed, publish_awaited, listed}
use red_room_rewards.Events.Tests.{held, settled, subscriber}

abbrev late : EventSubscription
late = subscriber "audit" none 0

abbrev early : EventSubscription
early = subscriber "cache" (some (pos 10)) 2

abbrev broken : EventSubscription
broken = subscriber "mail" (some (pos 20)) 9

perform_all-IsOrdered_example : IsOrdered WalletEventType.escrow_held (
    subscribers_of WalletEventType.escrow_held
      (perform_all default_config (subscribes late ∷ subscribes early ∷ []) new_bus))
perform_all-IsOrdered_example =
    perform_all-IsOrdered default_config (subscribes late ∷ subscribes early ∷ [])
      WalletEventType.escrow_held

-- The bus with those two, in the order of their priorities.
abbrev two_subscribers : EventBus
two_subscribers = record {
  subscriptions =
      (WalletEventType.escrow_held, early ∷ late ∷ [])
      ∷ (WalletEventType.escrow_settled, early ∷ late ∷ [])
      ∷ [];
  processed_events = [];
}

subscribes_both : subscribe early (subscribe late new_bus) ≡ two_subscribers
unfolding subscribe subscribe_each subscribe_to priority_of sort_by sort_onto insert_by
subscribes_both = refl

-- The priority zero, which should come first, stands behind ten.
zero_is_late :
    subscribers_of WalletEventType.escrow_held
      (subscribe (subscriber "urgent" (some (pos 0)) 0) two_subscribers)
    ≡ early ∷ late ∷ subscriber "urgent" (some (pos 0)) 0 ∷ []
unfolding subscribe subscribe_each subscribe_to priority_of sort_by sort_onto insert_by
zero_is_late = refl

unsubscribes_one :
    subscribers_of WalletEventType.escrow_held (unsubscribe "cache" two_subscribers) ≡ late ∷ []
unfolding unsubscribe unsubscribe_all
unsubscribes_one = refl

notify_subscriber-Outcome_example :
    Outcome early (held 5) 3 (notify_subscriber default_config (held 5) early)
notify_subscriber-Outcome_example = notify_subscriber-Outcome default_config (held 5) early

third_attempt :
    notify_subscriber default_config (held 5) early
    ≡ record { subscriber_id = "cache"; calls = 3; error = none }
unfolding notify_subscriber notify_rest
third_attempt = refl

not_seen : is_duplicate (held 5) two_subscribers ≡ false
unfolding is_duplicate
not_seen = refl

publish_once_example :
    publish default_config 8 (settled 8) (
      perform_all default_config
        (cleans 7 ∷ [])
        (publish default_config 5 (held 5) two_subscribers).bus)
    ≡ ignored (settled 8) (
        perform_all default_config
          (cleans 7 ∷ [])
          (publish default_config 5 (held 5) two_subscribers).bus)
publish_once_example =
    publish_once default_config 5 8 (held 5) (settled 8) two_subscribers (cleans 7 ∷ []) refl
      not_seen (omega arith, tt) refl

abbrev waiting : EventBusConfig
waiting = record default_config { async_processing = false }

publish_awaited_example :
    (((publish waiting 5 (held 5) two_subscribers).result.success ≡ true)
      ↔ All (CanSucceed waiting (held 5)) (early ∷ late ∷ []))
    × ((publish waiting 5 (held 5) two_subscribers).result.handlers_notified
          + length (listed (publish waiting 5 (held 5) two_subscribers).result.errors)
        ≡ 2)
publish_awaited_example = publish_awaited waiting 5 (held 5) two_subscribers refl (inr not_seen)
