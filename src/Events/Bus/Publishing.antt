-- ===== src/Events/Bus/Publishing.antt =====
-- The branches of `publish` of events/event-bus.ts.
use red_room_rewards.Prelude.{ℕ, ◌≡◌, refl, true, false, Bool-cases, inl, inr}
use red_room_rewards.Events.Types.{RewardEvent}
use red_room_rewards.Events.Bus.{EventBusConfig, EventBus, is_duplicate, mark_processed}
use red_room_rewards.Events.Bus.Publish.{ignored, deliver, publish}

module _ (cfg : EventBusConfig) (now : ℕ) (e : RewardEvent) (bus : EventBus) where
  pub publish_plain : cfg.enable_deduplication ≡ false → publish cfg now e bus ≡ deliver cfg e bus
  unfolding publish
  publish_plain off = rw off refl

  pub publish_duplicate :
      cfg.enable_deduplication ≡ true
      → is_duplicate e bus ≡ true
      → publish cfg now e bus ≡ ignored e bus
  unfolding publish
  publish_duplicate on known = rw on (rw known refl)

  pub publish_new :
      cfg.enable_deduplication ≡ true
      → is_duplicate e bus ≡ false
      → publish cfg now e bus ≡ deliver cfg e (mark_processed e now bus)
  unfolding publish
  publish_new on new = rw on (rw new refl)

  -- A property of the bus that marking the event keeps.
  pub publish-keeps :
      (P : EventBus → Type 0) → P bus → P (mark_processed e now bus) → P (publish cfg now e bus).bus
  unfolding deliver
  publish-keeps P same marked = elim (Bool-cases cfg.enable_deduplication) [
    | inr off ↦ rw (publish_plain off) same
    | inl on ↦ elim (Bool-cases (is_duplicate e bus)) [
      | inl known ↦ rw (publish_duplicate on known) same
      | inr new ↦ rw (publish_new on new) marked
    ]
  ]
