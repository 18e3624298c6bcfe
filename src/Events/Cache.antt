-- ===== src/Events/Cache.antt =====
-- The class `BalanceSnapshotCache` of events/balance-snapshot-cache.ts. The `Map` is a table in the
-- order of insertion; an entry that the source changes in place is written back under its key.
pub mod Eviction
pub mod Oldest
pub mod Calls
pub mod Bounded
pub mod Reports
pub mod Shows
pub mod Upserts
pub mod Faithful
use red_room_rewards.Prelude.{
  ℕ, suc, ◌-◌, ltb, leb, ℤ, pos, String, str_eq, suffixed, Bool, true, false, List, [], ◌∷◌, Option,
  none, some, length, take, sort_by, if◌then◌else◌,
}
use red_room_rewards.Domain.{AccountType, BalanceState, available, escrow, earned}
use red_room_rewards.Store.Table.{Table, get, put, remove, by_text}
use red_room_rewards.Events.Types.{
  BalanceUpdatedEvent, EscrowHeldEvent, EscrowSettledEvent, EscrowRefundedEvent,
  EscrowPartialSettledEvent, Payload, RewardEvent,
}

pub record CachedBalance : Type 0 where
  pub account_id : String
  pub account_type : AccountType
  pub available_balance : ℤ
  pub escrow_balance : Option ℤ
  pub earned_balance : Option ℤ
  pub last_updated : ℕ
  pub version : ℕ

pub record BalanceCacheConfig : Type 0 where
  pub enabled : Bool
  pub max_size : ℕ
  pub ttl_ms : ℕ

-- `DEFAULT_CONFIG`
abbrev pub default_config : BalanceCacheConfig
default_config = record { enabled = true; max_size = 10000; ttl_ms = 3600000 }

abbrev pub Cache : Type 0
Cache = Table String CachedBalance

abbrev pub get_cache_key : String → AccountType → String
get_cache_key id AccountType.user = suffixed "user:" id
get_cache_key id AccountType.model = suffixed "model:" id

-- `cached.lastUpdated = …; cached.version++`
abbrev pub touched : ℕ → CachedBalance → CachedBalance
touched timestamp c = record c { last_updated = timestamp; version = suc c.version }

-- Writes a new entry if there is none under the key, and otherwise the changed one.
unfoldable pub upsert : String → CachedBalance → (CachedBalance → CachedBalance) → Cache → Cache
upsert key new_entry change cache = elim (get by_text key cache) [
  | none ↦ put by_text key new_entry cache
  | some cached ↦ put by_text key (change cached) cache
]

-- `Array.from(this.cache.entries())`, sorted by `lastUpdated`.
abbrev pub age_of : String × CachedBalance → ℤ
age_of p = pos p.1.last_updated

abbrev pub oldest_first : Cache → List (String × CachedBalance)
oldest_first cache = sort_by age_of cache

unfoldable pub delete_each : List (String × CachedBalance) → Cache → Cache
delete_each [] cache = cache
delete_each ((key, c) ∷ rest) cache = delete_each rest (remove by_text key cache)

abbrev pub to_remove : BalanceCacheConfig → Cache → List (String × CachedBalance)
to_remove cfg cache = take (length cache - cfg.max_size) (oldest_first cache)

unfoldable pub evict_if_needed : BalanceCacheConfig → Cache → Cache
unfolding delete_each
evict_if_needed cfg cache =
    if leb (length cache) cfg.max_size then cache else delete_each (to_remove cfg cache) cache

-- The three conditional balances of the first entry in `handleBalanceUpdated`.
abbrev pub first_available : AccountType → BalanceState → ℤ → ℤ
first_available AccountType.user available after = after
first_available _ _ after = pos 0

abbrev pub first_escrow : AccountType → BalanceState → ℤ → ℤ
first_escrow AccountType.user escrow after = after
first_escrow _ _ after = pos 0

abbrev pub first_earned : AccountType → BalanceState → ℤ → ℤ
first_earned AccountType.model earned after = after
first_earned _ _ after = pos 0

abbrev pub first_balance : ℕ → BalanceUpdatedEvent → CachedBalance
first_balance timestamp e = record {
  account_id = e.account_id;
  account_type = e.account_type;
  available_balance = first_available e.account_type e.balance_state e.balance_after;
  escrow_balance = some (first_escrow e.account_type e.balance_state e.balance_after);
  earned_balance = some (first_earned e.account_type e.balance_state e.balance_after);
  last_updated = timestamp;
  version = 1;
}

abbrev pub with_balance : BalanceState → ℤ → CachedBalance → CachedBalance
with_balance available after c = record c { available_balance = after }
with_balance escrow after c = record c { escrow_balance = some after }
with_balance earned after c = record c { earned_balance = some after }

-- The entry of a user whose two balances an event gives.
abbrev pub user_entry : ℕ → String → ℤ → ℤ → CachedBalance
user_entry timestamp id in_available in_escrow = record {
  account_id = id;
  account_type = AccountType.user;
  available_balance = in_available;
  escrow_balance = some in_escrow;
  earned_balance = none;
  last_updated = timestamp;
  version = 1;
}

abbrev pub with_user_balances : ℕ → ℤ → ℤ → CachedBalance → CachedBalance
with_user_balances timestamp in_available in_escrow c =
    touched timestamp
      (record c { available_balance = in_available; escrow_balance = some in_escrow })

abbrev pub model_entry : ℕ → String → ℤ → CachedBalance
model_entry timestamp id in_earned = record {
  account_id = id;
  account_type = AccountType.model;
  available_balance = pos 0;
  escrow_balance = none;
  earned_balance = some in_earned;
  last_updated = timestamp;
  version = 1;
}

abbrev pub with_earned : ℕ → ℤ → CachedBalance → CachedBalance
with_earned timestamp in_earned c = touched timestamp (record c { earned_balance = some in_earned })

unfoldable pub upsert_user : ℕ → String → ℤ → ℤ → Cache → Cache
unfolding upsert
upsert_user timestamp id in_available in_escrow cache =
    upsert (get_cache_key id AccountType.user) (user_entry timestamp id in_available in_escrow)
      (with_user_balances timestamp in_available in_escrow) cache

unfoldable pub upsert_model : ℕ → String → ℤ → Cache → Cache
unfolding upsert
upsert_model timestamp id in_earned cache =
    upsert (get_cache_key id AccountType.model) (model_entry timestamp id in_earned)
      (with_earned timestamp in_earned) cache

-- What each handler writes, before the eviction that ends it.
unfoldable pub note_balance_updated : ℕ → BalanceUpdatedEvent → Cache → Cache
unfolding upsert
note_balance_updated timestamp e cache =
    upsert (get_cache_key e.account_id e.account_type) (first_balance timestamp e)
      (λ c. touched timestamp (with_balance e.balance_state e.balance_after c)) cache

unfoldable pub note_held : ℕ → EscrowHeldEvent → Cache → Cache
unfolding upsert_user
note_held timestamp e cache =
    upsert_user timestamp e.user_id e.user_available_balance e.user_escrow_balance cache

unfoldable pub note_settled : ℕ → EscrowSettledEvent → Cache → Cache
unfolding upsert_model
note_settled timestamp e cache = upsert_model timestamp e.model_id e.model_earned_balance cache

unfoldable pub note_refunded : ℕ → EscrowRefundedEvent → Cache → Cache
unfolding upsert_user
note_refunded timestamp e cache =
    upsert_user timestamp e.user_id e.user_available_balance e.user_escrow_balance cache

unfoldable pub note_partial_settled : ℕ → EscrowPartialSettledEvent → Cache → Cache
unfolding upsert_user upsert_model
note_partial_settled timestamp e cache =
    upsert_model timestamp e.model_id e.model_earned_balance
      (upsert_user timestamp e.user_id e.user_available_balance e.user_escrow_balance cache)

-- The `switch` of `handleEvent`.
unfoldable pub handle_payload : BalanceCacheConfig → ℕ → Payload → Cache → Cache
handle_payload cfg t (Payload.balance_updated e) cache =
    evict_if_needed cfg (note_balance_updated t e cache)
handle_payload cfg t (Payload.escrow_held e) cache = evict_if_needed cfg (note_held t e cache)
handle_payload cfg t (Payload.escrow_settled e) cache = evict_if_needed cfg (note_settled t e cache)
handle_payload cfg t (Payload.escrow_refunded e) cache =
    evict_if_needed cfg (note_refunded t e cache)
handle_payload cfg t (Payload.escrow_partial_settled e) cache =
    evict_if_needed cfg (note_partial_settled t e cache)
handle_payload cfg t (Payload.ledger_entry_created e) cache = cache

unfoldable pub handle_event : BalanceCacheConfig → RewardEvent → Cache → Cache
handle_event cfg e cache = handle_payload cfg e.base.timestamp e.payload cache

unfoldable pub get_balance :
    BalanceCacheConfig → ℕ → String → AccountType → Cache → Option CachedBalance × Cache
get_balance cfg now id type cache = elim (get by_text (get_cache_key id type) cache) [
  | none ↦ (none, cache)
  | some cached ↦
      if ltb cfg.ttl_ms (now - cached.last_updated)
      then (none, remove by_text (get_cache_key id type) cache)
      else (some cached, cache)
]

unfoldable pub invalidate : String → AccountType → Cache → Cache
invalidate id type cache = remove by_text (get_cache_key id type) cache

unfoldable pub clear : Cache → Cache
clear cache = []

pub record CacheStats : Type 0 where
  pub size : ℕ
  pub max_size : ℕ

unfoldable pub get_stats : BalanceCacheConfig → Cache → CacheStats
get_stats cfg cache = record { size = length cache; max_size = cfg.max_size }
