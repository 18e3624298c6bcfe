-- ===== src/Events/Bus.antt =====
-- The class `EventBus` of events/event-bus.ts, but for its publications. A `Map` is a table in the
-- order of insertion.
pub mod Publish
pub mod Retry
pub mod Calls
pub mod Publishing
pub mod Once
pub mod Delivery
pub mod Order
use red_room_rewards.Prelude.{
  ℕ, zero, suc, ◌-◌, ◌+◌, ltb, ℤ, pos, eqb_ℤ, String, str_eq, is_empty, suffixed, Bool, true, false,
  not, ◌≡◌, ◌↔◌, List, [], ◌∷◌, ◌++◌, map, Option, none, some, length, any, keep_if, sort_by, arith,
  if◌then◌else◌,
}
use red_room_rewards.Store.Table.{Eq, Table, docs, get, put, by_text}
use red_room_rewards.Events.Types.{
  WalletEventType, same_event_type, BaseRewardEvent, RewardEvent, event_type, EventSubscription,
  HandlerError, EventPublishResult,
}

pub record EventBusConfig : Type 0 where
  pub enable_deduplication : Bool
  pub deduplication_ttl_ms : ℕ
  pub max_retry_attempts : ℕ
  pub retry_delay_ms : ℕ
  pub async_processing : Bool

-- `DEFAULT_CONFIG`
abbrev pub default_config : EventBusConfig
default_config = record {
  enable_deduplication = true;
  deduplication_ttl_ms = 3600000;
  max_retry_attempts = 3;
  retry_delay_ms = 1000;
  async_processing = true;
}

pub same_event_type_iff : (a b : WalletEventType) → (same_event_type a b ≡ true) ↔ (a ≡ b)
same_event_type_iff WalletEventType.balance_updated b = ground arith
same_event_type_iff WalletEventType.escrow_held b = ground arith
same_event_type_iff WalletEventType.escrow_settled b = ground arith
same_event_type_iff WalletEventType.escrow_refunded b = ground arith
same_event_type_iff WalletEventType.escrow_partial_settled b = ground arith
same_event_type_iff WalletEventType.ledger_entry_created b = ground arith

abbrev pub by_event_type : Eq WalletEventType
by_event_type = record { beq = same_event_type; beq_iff = same_event_type_iff }

pub record EventBus : Type 0 where
  pub subscriptions : Table WalletEventType (List EventSubscription)
  pub processed_events : Table String ℕ

abbrev pub new_bus : EventBus
new_bus = record { subscriptions = []; processed_events = [] }

-- `s.priority || 100`
unfoldable pub priority_of : EventSubscription → ℤ
priority_of s = elim s.priority [ none ↦ pos 100 | some p ↦ if eqb_ℤ p (pos 0) then pos 100 else p ]

-- `this.subscriptions.get(eventType) || []`
abbrev pub or_none : Option (List EventSubscription) → List EventSubscription
or_none none = []
or_none (some subs) = subs

abbrev pub subscribers_of : WalletEventType → EventBus → List EventSubscription
subscribers_of t bus = or_none (get by_event_type t bus.subscriptions)

-- The body of the loop of `subscribe`.
unfoldable pub subscribe_to : EventSubscription → WalletEventType → EventBus → EventBus
unfolding priority_of
subscribe_to s t bus = record bus {
  subscriptions =
      put by_event_type t (sort_by priority_of (subscribers_of t bus ++ s ∷ [])) bus.subscriptions;
}

unfoldable pub subscribe_each : EventSubscription → List WalletEventType → EventBus → EventBus
subscribe_each s [] bus = bus
subscribe_each s (t ∷ ts) bus = subscribe_each s ts (subscribe_to s t bus)

unfoldable pub subscribe : EventSubscription → EventBus → EventBus
subscribe s bus = subscribe_each s s.event_types bus

abbrev pub others_than : String → List EventSubscription → List EventSubscription
others_than id subs = keep_if (λ s. not (str_eq s.subscriber_id id)) subs

unfoldable pub unsubscribe_all :
    String
    → Table WalletEventType (List EventSubscription)
    → Table WalletEventType (List EventSubscription)
unsubscribe_all id [] = []
unsubscribe_all id ((t, subs) ∷ rest) = (t, others_than id subs) ∷ unsubscribe_all id rest

unfoldable pub unsubscribe : String → EventBus → EventBus
unsubscribe id bus = record bus { subscriptions = unsubscribe_all id bus.subscriptions }

abbrev pub dedupe_keys : BaseRewardEvent → List String
dedupe_keys b =
    suffixed "eventId:" b.event_id
    ∷ (if is_empty b.idempotency_key then [] else suffixed "idem:" b.idempotency_key ∷ [])

-- `this.processedEvents.has(key)`
abbrev pub has : Table String ℕ → String → Bool
has t k = elim (get by_text k t) [ none ↦ false | some stamp ↦ true ]

unfoldable pub is_duplicate : RewardEvent → EventBus → Bool
is_duplicate e bus = any (has bus.processed_events) (dedupe_keys e.base)

unfoldable pub mark_each : List String → ℕ → Table String ℕ → Table String ℕ
mark_each [] now t = t
mark_each (k ∷ ks) now t = mark_each ks now (put by_text k now t)

unfoldable pub mark_processed : RewardEvent → ℕ → EventBus → EventBus
mark_processed e now bus = record bus {
  processed_events = mark_each (dedupe_keys e.base) now bus.processed_events;
}

-- The body of the interval that `startCleanupInterval` sets.
abbrev pub is_fresh : EventBusConfig → ℕ → String × ℕ → Bool
is_fresh cfg now p = not (ltb cfg.deduplication_ttl_ms (now - p.1))

unfoldable pub cleanup : EventBusConfig → ℕ → EventBus → EventBus
cleanup cfg now bus = record bus {
  processed_events = keep_if (is_fresh cfg now) bus.processed_events;
}

unfoldable pub clear_subscriptions : EventBus → EventBus
clear_subscriptions bus = new_bus

-- The totals of `getStats`.
pub record BusStats : Type 0 where
  pub total_subscribers : ℕ
  pub processed_events_count : ℕ
  pub subscriptions_by_type : Table WalletEventType ℕ

abbrev pub sum_of_lengths : List (List EventSubscription) → ℕ
sum_of_lengths [] = 0
sum_of_lengths (subs ∷ rest) = length subs + sum_of_lengths rest

abbrev pub counts : Table WalletEventType (List EventSubscription) → Table WalletEventType ℕ
counts [] = []
counts ((t, subs) ∷ rest) = (t, length subs) ∷ counts rest

unfoldable pub get_stats : EventBus → BusStats
get_stats bus = record {
  total_subscribers = sum_of_lengths (docs bus.subscriptions);
  processed_events_count = length bus.processed_events;
  subscriptions_by_type = counts bus.subscriptions;
}
