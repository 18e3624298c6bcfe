-- ===== src/Events.antt =====
-- The event bus and what hangs on it: events/types.ts, events/event-bus.ts,
-- events/wallet-event-publisher.ts and events/balance-snapshot-cache.ts.
pub mod Types
pub mod Building
pub mod Bus
pub mod Cache
mod Tests
