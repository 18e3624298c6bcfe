-- ===== src/Events/Bus/Delivery.antt =====
-- What `publish` of events/event-bus.ts answers, with and without waiting for the handlers.
use red_room_rewards.Prelude.{
  ℕ, ◌+◌, ◌<◌, Bool, true, false, ◌≡◌, ◌∙◌, refl, ap, suc, Option-cases, ◌↔◌, ◌⊎◌, List, [], ◌∷◌,
  Option, none, some, map, All, length, keep_if, Bool-cases, inl, inr, arith, if◌then◌else◌,
}
use red_room_rewards.Events.Types.{RewardEvent, HandlerError, event_type, EventSubscription}
use red_room_rewards.Events.Bus.{
  EventBusConfig, EventBus, subscribers_of, is_duplicate, mark_processed,
}
use red_room_rewards.Events.Bus.Publish.{
  Notification, notify_subscriber, failures, has_succeeded, awaited_result, error_list, deliver,
  publish,
}
use red_room_rewards.Events.Bus.Publishing.{publish_plain, publish_new}
use red_room_rewards.Events.Bus.Retry.{notify_subscriber-Outcome}

-- The event is not taken for a duplicate.
abbrev pub IsNew : EventBusConfig → RewardEvent → EventBus → Type 0
IsNew cfg e bus = (cfg.enable_deduplication ≡ false) ⊎ (is_duplicate e bus ≡ false)

-- One of the attempts that the limit allows succeeds.
abbrev pub CanSucceed : EventBusConfig → RewardEvent → EventSubscription → Type 0
CanSucceed cfg e s = (n : ℕ) × (n < cfg.max_retry_attempts) × (s.handler e n ≡ none)

module _ (cfg : EventBusConfig) (e : RewardEvent) where
  can_succeed :
      (s : EventSubscription) → CanSucceed cfg e s → (notify_subscriber cfg e s).error ≡ none
  can_succeed s (n, lt, works) = elim (notify_subscriber-Outcome cfg e s) [
    | inl (m, below, first, is) ↦ rw is refl
    | inr (fails, (last, is)) ↦ absurd (fails n lt works)
  ]

  has_success :
      (s : EventSubscription) → (notify_subscriber cfg e s).error ≡ none → CanSucceed cfg e s
  has_success s h = elim (notify_subscriber-Outcome cfg e s) [
    | inl (m, below, first, is) ↦ (m, below, first.succeeds)
    | inr (fails, (last, is)) ↦ absurd (let bad = rw is at h in cc)
  ]

  failures-none :
      (subs : List EventSubscription)
      → All (CanSucceed cfg e) subs
      → failures (map (notify_subscriber cfg e) subs) ≡ []
  failures-none [] h = refl
  failures-none (s ∷ ss) (h, hs) = rw (can_succeed s h, failures) (failures-none ss hs)

  failures-nil :
      (subs : List EventSubscription)
      → failures (map (notify_subscriber cfg e) subs) ≡ []
      → All (CanSucceed cfg e) subs
  failures-nil [] h = tt
  failures-nil (s ∷ ss) h = elim (Option-cases (notify_subscriber cfg e s).error) [
    | inl works ↦ (has_success s works, failures-nil ss (rw (works, failures) at h))
    | inr (m, fails) ↦ absurd (let bad = rw (fails, failures) at h in cc)
  ]

counted :
    (ns : List Notification) → length (keep_if has_succeeded ns) + length (failures ns) ≡ length ns
counted [] = omega arith
counted (n ∷ ns) = elim (Option-cases n.error) [
  | inl works ↦ rw (works, failures, has_succeeded) (omega (arith, counted ns))
  | inr (m, fails) ↦ rw (fails, failures, has_succeeded) (omega (arith, counted ns))
]

length-map :
    (f : EventSubscription → Notification) (subs : List EventSubscription)
    → length (map f subs) ≡ length subs
length-map f [] = refl
length-map f (s ∷ ss) = ap suc (length-map f ss)

not_known :
    (cfg : EventBusConfig) (e : RewardEvent) (bus : EventBus)
    → cfg.enable_deduplication ≡ true
    → IsNew cfg e bus
    → is_duplicate e bus ≡ false
not_known cfg e bus on (inl off) = absurd (cc)
not_known cfg e bus on (inr new) = new

-- What is published goes to the subscribers of its type.
module _ (cfg : EventBusConfig) (now : ℕ) (e : RewardEvent) (bus : EventBus)
    (new : IsNew cfg e bus) where
  abbrev ends : List Notification
  ends = map (notify_subscriber cfg e) (subscribers_of (event_type e) bus)

  publish-result :
      (publish cfg now e bus).result ≡ awaited_result e (if cfg.async_processing then [] else ends)
  unfolding deliver mark_processed
  publish-result = elim (Bool-cases cfg.enable_deduplication) [
    | inr off ↦ rw (publish_plain cfg now e bus off) refl
    | inl on ↦ rw (publish_new cfg now e bus on (not_known cfg e bus on new)) refl
  ]

success_iff :
    (e : RewardEvent) (ns : List Notification)
    → ((awaited_result e ns).success ≡ true) ↔ (failures ns ≡ [])
unfolding awaited_result
success_iff e ns = go (failures ns) refl
  where
    go :
        (fs : List HandlerError)
        → failures ns ≡ fs
        → ((awaited_result e ns).success ≡ true) ↔ (failures ns ≡ [])
    go [] h = (λ s. h, λ s. rw (h, awaited_result) refl)
    go (f ∷ fs) h = (λ s. absurd (let bad = rw (h, awaited_result) at s in cc), λ s. absurd (cc))

otherwise : {A : Type 0} → (b : Bool) (x y : A) → b ≡ false → (if b then x else y) ≡ y
otherwise b x y h = rw h refl

-- The errors of an answer, which has none or a list of them.
abbrev pub listed : Option (List HandlerError) → List HandlerError
listed none = []
listed (some xs) = xs

listed-error_list : (xs : List HandlerError) → listed (error_list xs) ≡ xs
listed-error_list [] = refl
listed-error_list (x ∷ xs) = refl

-- If the bus waits for its handlers and the event is no duplicate, the publication is a success
-- exactly if each subscriber of the event's type succeeds within the allowed attempts, and the number
-- of subscribers notified and the number of errors in the answer together are the number of
-- subscribers.
pub publish_awaited :
    (cfg : EventBusConfig) (now : ℕ) (e : RewardEvent) (bus : EventBus)
    → cfg.async_processing ≡ false
    → IsNew cfg e bus
    → (((publish cfg now e bus).result.success ≡ true)
        ↔ All (CanSucceed cfg e) (subscribers_of (event_type e) bus))
      × ((publish cfg now e bus).result.handlers_notified
            + length (listed (publish cfg now e bus).result.errors)
          ≡ length (subscribers_of (event_type e) bus))
unfolding awaited_result
publish_awaited cfg now e bus waits new =
    let subs = subscribers_of (event_type e) bus in
    let ns = map (notify_subscriber cfg e) subs in
    rw (publish-result cfg now e bus new) (
      rw (otherwise cfg.async_processing [] ns waits) (
        (
          λ ok. failures-nil cfg e subs ((success_iff e ns).0 ok),
          λ all. (success_iff e ns).1 (failures-none cfg e subs all),
        ),
        rw (listed-error_list (failures ns))
            (counted ns ∙ length-map (notify_subscriber cfg e) subs),
      ))
