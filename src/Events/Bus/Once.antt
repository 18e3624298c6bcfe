-- ===== src/Events/Bus/Once.antt =====
-- Deduplication by the event bus of events/event-bus.ts.
use red_room_rewards.Prelude.{
  ℕ, ◌+◌, ◌≤◌, String, str_eq, str_eq_iff, Bool, true, false, ◌≡◌, refl, List, [], ◌∷◌, some, All,
  any, includes, keep_if, Bool-cases, inl, texts-differ, some-injective, inr, arith,
}
use red_room_rewards.Store.Table.{Table, get, put, by_text, get-put_self, get-put_ne}
use red_room_rewards.Events.Types.{WalletEventType, RewardEvent, EventSubscription}
use red_room_rewards.Events.Bus.{
  EventBusConfig, EventBus, dedupe_keys, has, is_duplicate, mark_each, mark_processed, is_fresh,
  cleanup, subscribe, subscribe_to, subscribe_each, unsubscribe,
}
use red_room_rewards.Events.Bus.Publish.{ignored, deliver, publish}
use red_room_rewards.Events.Bus.Publishing.{publish_duplicate, publish_new, publish-keeps}
use red_room_rewards.Events.Bus.Calls.{
  Call, subscribes, unsubscribes, publishes, cleans, clears, perform, perform_all,
}

-- The key was marked, at `start` or later.
abbrev pub MarkedSince : ℕ → String → Table String ℕ → Type 0
MarkedSince start k t = (stamp : ℕ) × (get by_text k t ≡ some stamp) × (start ≤ stamp)

-- A call that happens within `ttl` of `start`, and does not clear the bus.
abbrev pub IsWithin : ℕ → ℕ → Call → Type 0
IsWithin start ttl (subscribes s) = Unit
IsWithin start ttl (unsubscribes id) = Unit
IsWithin start ttl (publishes now e) = start ≤ now
IsWithin start ttl (cleans now) = now ≤ start + ttl
IsWithin start ttl clears = ⊥

-- Both events have the same id, or the same idempotency key.
abbrev pub share_key : RewardEvent → RewardEvent → Bool
share_key a b = any (includes (dedupe_keys a.base)) (dedupe_keys b.base)

put-MarkedSince :
    (start now : ℕ) (k j : String) (t : Table String ℕ)
    → start ≤ now
    → MarkedSince start k t
    → MarkedSince start k (put by_text j now t)
put-MarkedSince start now k j t late (stamp, found, since) = elim (Bool-cases (str_eq k j)) [
  | inl same ↦ let is = (str_eq_iff k j).0 same in (now, rw is (get-put_self by_text j now t), late)
  | inr other ↦ (stamp, rw (get-put_ne by_text k j now t (texts-differ k j other)) found, since)
]

mark_each-MarkedSince :
    (start now : ℕ) (k : String) (ks : List String) (t : Table String ℕ)
    → start ≤ now
    → MarkedSince start k t
    → MarkedSince start k (mark_each ks now t)
unfolding mark_each
mark_each-MarkedSince start now k [] t late m = m
mark_each-MarkedSince start now k (j ∷ ks) t late m =
    mark_each-MarkedSince start now k ks (put by_text j now t) late
      (put-MarkedSince start now k j t late m)

-- Marking marks.
mark_each-marks :
    (now : ℕ) (k : String) (ks : List String) (t : Table String ℕ)
    → includes ks k ≡ true
    → MarkedSince now k (mark_each ks now t)
unfolding mark_each
mark_each-marks now k [] t h = absurd (cc)
mark_each-marks now k (j ∷ ks) t h = elim (Bool-cases (str_eq j k)) [
  | inl same ↦
      let is = (str_eq_iff j k).0 same in
      mark_each-MarkedSince now now k ks (put by_text j now t) (omega arith)
        (now, rw is (get-put_self by_text k now t), omega arith)
  | inr other ↦ mark_each-marks now k ks (put by_text j now t) (rw other at h)
]

keep_if-get :
    (p : String × ℕ → Bool) (k : String) (stamp : ℕ) (t : Table String ℕ)
    → get by_text k t ≡ some stamp
    → ((j : String) → p (j, stamp) ≡ true)
    → get by_text k (keep_if p t) ≡ some stamp
keep_if-get p k stamp [] h kept = absurd (cc)
keep_if-get p k stamp ((j, x) ∷ t) h kept = elim (Bool-cases (str_eq k j)) [
  | inl same ↦
      let is : x ≡ stamp = some-injective x stamp (rw same at h) in
      rw is (rw (kept j) (rw same refl))
  | inr other ↦
      let rest = keep_if-get p k stamp t (rw other at h) kept in
      elim (Bool-cases (p (j, x))) [
        | inl stays ↦ rw stays (rw other rest)
        | inr goes ↦ rw goes rest
      ]
]

subscribe_each-processed :
    (s : EventSubscription) (ts : List WalletEventType) (bus : EventBus)
    → (subscribe_each s ts bus).processed_events ≡ bus.processed_events
unfolding subscribe_each subscribe_to
subscribe_each-processed s [] bus = refl
subscribe_each-processed s (t ∷ ts) bus = subscribe_each-processed s ts (subscribe_to s t bus)

perform-MarkedSince :
    (cfg : EventBusConfig) (start : ℕ) (k : String) (c : Call) (bus : EventBus)
    → IsWithin start cfg.deduplication_ttl_ms c
    → MarkedSince start k bus.processed_events
    → MarkedSince start k (perform cfg c bus).processed_events
unfolding perform subscribe unsubscribe mark_processed cleanup
perform-MarkedSince cfg start k (subscribes s) bus w m =
    rw (subscribe_each-processed s s.event_types bus) m
perform-MarkedSince cfg start k (unsubscribes id) bus w m = m
perform-MarkedSince cfg start k (publishes now e) bus w m =
    publish-keeps cfg now e bus (λ b. MarkedSince start k b.processed_events) m
      (mark_each-MarkedSince start now k (dedupe_keys e.base) bus.processed_events w m)
perform-MarkedSince cfg start k (cleans now) bus w (stamp, found, since) = (
  stamp,
  keep_if-get (is_fresh cfg now) k stamp bus.processed_events found (λ j. ground arith),
  since,
)
perform-MarkedSince cfg start k clears bus w m = elim w [ ]

perform_all-MarkedSince :
    (cfg : EventBusConfig) (start : ℕ) (k : String) (cs : List Call) (bus : EventBus)
    → All (IsWithin start cfg.deduplication_ttl_ms) cs
    → MarkedSince start k bus.processed_events
    → MarkedSince start k (perform_all cfg cs bus).processed_events
unfolding perform_all
perform_all-MarkedSince cfg start k [] bus w m = m
perform_all-MarkedSince cfg start k (c ∷ cs) bus (w, ws) m =
    perform_all-MarkedSince cfg start k cs (perform cfg c bus) ws
      (perform-MarkedSince cfg start k c bus w m)

-- If each key of the first event is marked, an event that shares one is a duplicate.
any-has :
    (start : ℕ) (keys ks : List String) (t : Table String ℕ)
    → ((k : String) → includes keys k ≡ true → MarkedSince start k t)
    → any (includes keys) ks ≡ true
    → any (has t) ks ≡ true
any-has start keys [] t marked h = h
any-has start keys (k ∷ ks) t marked h = elim (Bool-cases (includes keys k)) [
  | inl shared ↦ let (stamp, found, since) = marked k shared in rw (found, has) refl
  | inr own ↦
      let rest = any-has start keys ks t marked (rw own at h) in
      elim (Bool-cases (has t k)) [ inl h' ↦ rw h' refl | inr h' ↦ rw h' rest ]
]

-- With deduplication on: after an event has been delivered, an event with the same id or the same
-- idempotency key, of whatever type, is answered as a success, notifies nobody and changes nothing,
-- whatever calls came in between, as long as none cleared the bus, no cleanup came later than the
-- time to live after the delivery and the clock of no publication went back behind it.
pub publish_once :
    (cfg : EventBusConfig) (now later : ℕ) (first second : RewardEvent) (bus : EventBus)
    (cs : List Call)
    → cfg.enable_deduplication ≡ true
    → is_duplicate first bus ≡ false
    → All (IsWithin now cfg.deduplication_ttl_ms) cs
    → share_key first second ≡ true
    → publish cfg later second (perform_all cfg cs (publish cfg now first bus).bus)
      ≡ ignored second (perform_all cfg cs (publish cfg now first bus).bus)
unfolding is_duplicate mark_processed deliver
publish_once cfg now later first second bus cs on new within shared =
    publish_duplicate cfg later second _ on (
      any-has now (dedupe_keys first.base) (dedupe_keys second.base) _
        (λ k mine. perform_all-MarkedSince cfg now k cs _ within (
          rw (publish_new cfg now first bus on new)
            (mark_each-marks now k (dedupe_keys first.base) bus.processed_events mine)))
        shared)
