-- ===== src/Events/Cache/Calls.antt =====
-- Sequences of calls of the cache of events/balance-snapshot-cache.ts.
use red_room_rewards.Prelude.{ℕ, String, List, [], ◌∷◌}
use red_room_rewards.Domain.{AccountType}
use red_room_rewards.Events.Types.{RewardEvent}
use red_room_rewards.Events.Cache.{
  BalanceCacheConfig, Cache, handle_event, get_balance, invalidate, clear,
}

-- `handles` is an event that the bus delivers; `reads` carries the time.
pub data Call : Type 0 where
  handles : RewardEvent → Call
  reads : ℕ → String → AccountType → Call
  invalidates : String → AccountType → Call
  clears : Call

unfoldable pub perform : BalanceCacheConfig → Call → Cache → Cache
perform cfg (handles e) cache = handle_event cfg e cache
perform cfg (reads now id type) cache = (get_balance cfg now id type cache).1
perform cfg (invalidates id type) cache = invalidate id type cache
perform cfg clears cache = clear cache

unfoldable pub perform_all : BalanceCacheConfig → List Call → Cache → Cache
perform_all cfg [] cache = cache
perform_all cfg (c ∷ cs) cache = perform_all cfg cs (perform cfg c cache)
