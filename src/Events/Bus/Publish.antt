-- ===== src/Events/Bus/Publish.antt =====
-- `publish` and `notifySubscriber` of events/event-bus.ts. The result of a publication comes with what
-- becomes of the notifications that it started, which the source leaves to the promises.
use red_room_rewards.Prelude.{
  ℕ, zero, suc, String, Bool, true, false, List, [], ◌∷◌, map, Option, none, some, length, keep_if,
  if◌then◌else◌,
}
use red_room_rewards.Events.Types.{
  RewardEvent, event_type, EventSubscription, HandlerError, EventPublishResult,
}
use red_room_rewards.Events.Bus.{
  EventBus, EventBusConfig, is_duplicate, mark_processed, subscribers_of,
}

-- How a notification ends: the calls of the handler, and the error if none of them succeeds.
pub record Notification : Type 0 where
  pub subscriber_id : String
  pub calls : ℕ
  pub error : Option String

-- `lastError || new Error('Handler failed after retries')`, and its message.
abbrev pub last_message : Option String → String
last_message none = "Handler failed after retries"
last_message (some m) = m

-- The loop of `notifySubscriber`, with the attempts that are left. The waits between them are left
-- out.
unfoldable pub notify_rest : EventSubscription → RewardEvent → ℕ → ℕ → Option String → Notification
notify_rest s e zero attempts last = record {
  subscriber_id = s.subscriber_id;
  calls = attempts;
  error = some (last_message last);
}
notify_rest s e (suc left) attempts last = elim (s.handler e attempts) [
  | none ↦ record { subscriber_id = s.subscriber_id; calls = suc attempts; error = none }
  | some m ↦ notify_rest s e left (suc attempts) (some m)
]

unfoldable pub notify_subscriber : EventBusConfig → RewardEvent → EventSubscription → Notification
notify_subscriber cfg e s = notify_rest s e cfg.max_retry_attempts 0 none

abbrev pub failures : List Notification → List HandlerError
failures [] = []
failures (n ∷ ns) = elim n.error [
  | none ↦ failures ns
  | some m ↦ record { subscriber_id = n.subscriber_id; error = m } ∷ failures ns
]

abbrev pub has_succeeded : Notification → Bool
has_succeeded n = elim n.error [ none ↦ true | some m ↦ false ]

abbrev pub error_list : List HandlerError → Option (List HandlerError)
error_list [] = none
error_list (x ∷ xs) = some (x ∷ xs)

-- The answer once the notifications are over, with the errors in the order of the subscribers.
unfoldable pub awaited_result : RewardEvent → List Notification → EventPublishResult
awaited_result e ns = record {
  event_id = e.base.event_id;
  success = elim (failures ns) [ [] ↦ true | x ∷ xs ↦ false ];
  handlers_notified = length (keep_if has_succeeded ns);
  errors = error_list (failures ns);
}

pub record Publication : Type 0 where
  pub result : EventPublishResult
  pub notifications : List Notification
  pub bus : EventBus

-- The answer to a duplicate.
abbrev pub ignored : RewardEvent → EventBus → Publication
ignored e bus = record {
  result = record {
    event_id = e.base.event_id;
    success = true;
    handlers_notified = 0;
    errors = none;
  };
  notifications = [];
  bus = bus;
}

-- With `async_processing` the answer is computed before any notification has ended, since each
-- waits for its handler at least once: no success is counted and no error is noted yet.
unfoldable pub deliver : EventBusConfig → RewardEvent → EventBus → Publication
deliver cfg e bus =
    let ns = map (notify_subscriber cfg e) (subscribers_of (event_type e) bus) in
    record {
      result = awaited_result e (if cfg.async_processing then [] else ns);
      notifications = ns;
      bus = bus;
    }

unfoldable pub publish : EventBusConfig → ℕ → RewardEvent → EventBus → Publication
publish cfg now e bus =
    if cfg.enable_deduplication
    then (if is_duplicate e bus then ignored e bus else deliver cfg e (mark_processed e now bus))
    else deliver cfg e bus
