-- ===== src/Events/Bus/Calls.antt =====
-- Sequences of calls of the event bus of events/event-bus.ts.
use red_room_rewards.Prelude.{ℕ, String, List, [], ◌∷◌}
use red_room_rewards.Events.Types.{RewardEvent, EventSubscription}
use red_room_rewards.Events.Bus.{
  EventBusConfig, EventBus, subscribe, unsubscribe, cleanup, clear_subscriptions,
}
use red_room_rewards.Events.Bus.Publish.{publish}

-- The interval's cleanup counts as a call. `publishes` and `cleans` carry their time.
pub data Call : Type 0 where
  subscribes : EventSubscription → Call
  unsubscribes : String → Call
  publishes : ℕ → RewardEvent → Call
  cleans : ℕ → Call
  clears : Call

unfoldable pub perform : EventBusConfig → Call → EventBus → EventBus
perform cfg (subscribes s) bus = subscribe s bus
perform cfg (unsubscribes id) bus = unsubscribe id bus
perform cfg (publishes now e) bus = (publish cfg now e bus).bus
perform cfg (cleans now) bus = cleanup cfg now bus
perform cfg clears bus = clear_subscriptions bus

unfoldable pub perform_all : EventBusConfig → List Call → EventBus → EventBus
perform_all cfg [] bus = bus
perform_all cfg (c ∷ cs) bus = perform_all cfg cs (perform cfg c bus)
