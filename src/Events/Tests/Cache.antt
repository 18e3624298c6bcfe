-- ===== src/Events/Tests/Cache.antt =====
-- Runs of the cache of events/balance-snapshot-cache.ts.
use red_room_rewards.Prelude.{
  ◌≤◌, pos, ◌≡◌, refl, List, [], ◌∷◌, map, sort_by, sort_onto, insert_by, arith,
}
use red_room_rewards.Domain.{AccountType}
use red_room_rewards.Events.Types.{RewardEvent}
use red_room_rewards.Events.Cache.{
  CachedBalance, BalanceCacheConfig, default_config, Cache, user_entry, model_entry, delete_each,
  evict_if_needed, get_balance,
}
use red_room_rewards.Events.Cache.Calls.{handles, perform_all}
use red_room_rewards.Events.Cache.Bounded.{IsValid, perform_all-IsValid}
use red_room_rewards.Events.Cache.Oldest.{evict-oldest}
use red_room_rewards.Events.Cache.Reports.{summary}
use red_room_rewards.Events.Cache.Faithful.{Answers, get_balance-summary}
use red_room_rewards.Events.Tests.{held, settled, updated}

abbrev tiny : BalanceCacheConfig
tiny = record default_config { max_size = 1 }

perform_all-IsValid_example :
    IsValid tiny (perform_all tiny (handles (held 5) ∷ handles (settled 6) ∷ []) [])
perform_all-IsValid_example = perform_all-IsValid tiny (handles (held 5) ∷ handles (settled 6) ∷ [])

abbrev old : CachedBalance
old = user_entry 5 "ann" (pos 70) (pos 30)

abbrev young : CachedBalance
young = model_entry 6 "eve" (pos 30)

abbrev both : Cache
both = ("user:ann", old) ∷ ("model:eve", young) ∷ []

evicts_one : evict_if_needed tiny both ≡ ("model:eve", young) ∷ []
unfolding evict_if_needed delete_each sort_by sort_onto insert_by
evicts_one = refl

evict-oldest_example : 5 ≤ 6
evict-oldest_example =
    evict-oldest tiny both "user:ann" "model:eve" old young (refl, (refl, tt)) refl
      (rw evicts_one refl) (rw evicts_one refl)

abbrev events : List RewardEvent
events = held 5 ∷ settled 6 ∷ updated 7 ∷ []

get_balance-summary_example :
    Answers default_config 9
      (summary "ann" AccountType.user events)
      (get_balance default_config 9 "ann" AccountType.user
        (perform_all default_config (map handles events) [])).0
get_balance-summary_example =
    get_balance-summary default_config 9 "ann" AccountType.user events (refl, (refl, (refl, tt)))
      (omega arith)
