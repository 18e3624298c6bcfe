-- ===== src/Events/Bus/Retry.antt =====
-- `notifySubscriber` of events/event-bus.ts: how often it calls the handler, and how it ends.
use red_room_rewards.Prelude.{
  ℕ, zero, suc, ◌+◌, ◌<◌, arith, ◌≡◌, ◌≢◌, refl, ◌⊎◌, inl, inr, Option, none, some, Option-cases,
  String, Bool-cases, ◌==◌, ==_iff,
}
use red_room_rewards.Events.Types.{RewardEvent, EventSubscription}
use red_room_rewards.Events.Bus.{EventBusConfig}
use red_room_rewards.Events.Bus.Publish.{Notification, last_message, notify_rest, notify_subscriber}

-- Attempt `n` is the first that succeeds.
pub record IsFirstSuccess (s : EventSubscription) (e : RewardEvent) (n : ℕ) : Type 0 where
  pub succeeds : s.handler e n ≡ none
  pub fails_before : (m : ℕ) → m < n → s.handler e m ≢ none

-- Every attempt below `n` fails.
abbrev pub FailsBelow : EventSubscription → RewardEvent → ℕ → Type 0
FailsBelow s e n = (m : ℕ) → m < n → s.handler e m ≢ none

abbrev pub succeeded : EventSubscription → ℕ → Notification
succeeded s n = record { subscriber_id = s.subscriber_id; calls = suc n; error = none }

abbrev pub gave_up : EventSubscription → ℕ → Option String → Notification
gave_up s n last = record {
  subscriber_id = s.subscriber_id;
  calls = n;
  error = some (last_message last);
}

-- Either the handler succeeds within the limit, or it fails as often as the limit allows.
abbrev pub Outcome : EventSubscription → RewardEvent → ℕ → Notification → Type 0
Outcome s e limit r =
    ((n : ℕ) × (n < limit) × IsFirstSuccess s e n × (r ≡ succeeded s n))
    ⊎ (FailsBelow s e limit × ((last : Option String) × (r ≡ gave_up s limit last)))

module _ (s : EventSubscription) (e : RewardEvent) where
  FailsBelow-suc :
      (n : ℕ) (m : String) → s.handler e n ≡ some m → FailsBelow s e n → FailsBelow s e (suc n)
  FailsBelow-suc n m now before k lt = elim (Bool-cases (k == n)) [
    | inl same ↦ λ h.
        absurd (let is = (==_iff k n).0 same in let here : s.handler e n ≡ none = rw (← is) h in cc)
    | inr other ↦ before k (ground arith)
  ]

  notify_rest-Outcome :
      (left attempts limit : ℕ) (last : Option String)
      → attempts + left ≡ limit
      → FailsBelow s e attempts
      → Outcome s e limit (notify_rest s e left attempts last)
  unfolding notify_rest
  notify_rest-Outcome zero attempts limit last sum before =
      let all : attempts ≡ limit = omega arith in inr (rw (← all) before, (last, rw (← all) refl))
  notify_rest-Outcome (suc left) attempts limit last sum before =
      elim (Option-cases (s.handler e attempts)) [
        | inl works ↦
            rw (works, notify_rest)
              (inl
                (attempts, omega arith, record { succeeds = works; fails_before = before }, refl))
        | inr (m, fails) ↦
            rw (fails, notify_rest)
              (notify_rest-Outcome left (suc attempts) limit (some m) (omega arith)
                (FailsBelow-suc attempts m fails before))
      ]

-- A notification calls the handler until an attempt succeeds, at most as often as configured: it ends
-- without an error after the first attempt that succeeds, if one within the limit does, and otherwise
-- it ends with an error after as many calls as the limit allows.
pub notify_subscriber-Outcome :
    (cfg : EventBusConfig) (e : RewardEvent) (s : EventSubscription)
    → Outcome s e cfg.max_retry_attempts (notify_subscriber cfg e s)
unfolding notify_subscriber
notify_subscriber-Outcome cfg e s =
    notify_rest-Outcome s e cfg.max_retry_attempts 0 cfg.max_retry_attempts none (omega arith)
      (λ m lt h. omega arith)
