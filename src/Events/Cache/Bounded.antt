-- ===== src/Events/Cache/Bounded.antt =====
-- What every call of the cache of events/balance-snapshot-cache.ts keeps: its size is within the
-- limit, and no key stands twice.
use red_room_rewards.Prelude.{
  ℕ, ◌-◌, ◌≤◌, ltb, leb, String, str_eq, str_eq_iff, ◌∙◌, refl, sym, List, [], ◌∷◌, length,
  Bool-cases, Option-cases, inl, inr, arith,
}
use red_room_rewards.Store.Table.{get, put, remove, by_text, get-put_ne, get-remove_ne}
use red_room_rewards.Domain.{AccountType}
use red_room_rewards.Events.Types.{Payload}
use red_room_rewards.Events.Cache.{
  CachedBalance, BalanceCacheConfig, Cache, upsert, upsert_user, upsert_model, delete_each,
  to_remove, evict_if_needed, get_cache_key, note_balance_updated, note_held, note_settled,
  note_refunded, note_partial_settled, handle_payload, handle_event, get_balance, invalidate, clear,
}
use red_room_rewards.Events.Cache.Eviction.{Entry, evict-le_max}
use red_room_rewards.Events.Cache.Oldest.{Distinct}
use red_room_rewards.Events.Cache.Calls.{
  Call, handles, reads, invalidates, clears, perform, perform_all,
}

length-remove-le : (k : String) (t : Cache) → length (remove by_text k t) ≤ length t
length-remove-le k [] = omega arith
length-remove-le k ((j, c) ∷ t) = ground (arith, length-remove-le k t)

put-Distinct :
    (k : String) (c : CachedBalance) (t : Cache) → Distinct t → Distinct (put by_text k c t)
put-Distinct k c [] d = (refl, tt)
put-Distinct k c ((j, x) ∷ t) (new, d) = elim (Bool-cases (str_eq k j)) [
  | inl same ↦ let is = (str_eq_iff k j).0 same in rw same (rw is new, d)
  | inr other ↦ rw other (
    get-put_ne by_text j k c t (λ same. absurd (let eq = (str_eq_iff k j).1 (sym same) in cc))
        ∙ new,
    put-Distinct k c t d,
  )
]

remove-Distinct : (k : String) (t : Cache) → Distinct t → Distinct (remove by_text k t)
remove-Distinct k [] d = tt
remove-Distinct k ((j, x) ∷ t) (new, d) = elim (Bool-cases (str_eq k j)) [
  | inl same ↦ rw same (remove-Distinct k t d)
  | inr other ↦ rw other (
    get-remove_ne by_text j k t (λ same. absurd (let eq = (str_eq_iff k j).1 (sym same) in cc))
        ∙ new,
    remove-Distinct k t d,
  )
]

upsert-Distinct :
    (k : String) (c : CachedBalance) (f : CachedBalance → CachedBalance) (t : Cache)
    → Distinct t
    → Distinct (upsert k c f t)
unfolding upsert
upsert-Distinct k c f t d = elim (Option-cases (get by_text k t)) [
  | inl missing ↦ rw (missing, upsert) (put-Distinct k c t d)
  | inr (x, found) ↦ rw (found, upsert) (put-Distinct k (f x) t d)
]

delete_each-Distinct : (qs : List Entry) (t : Cache) → Distinct t → Distinct (delete_each qs t)
unfolding delete_each
delete_each-Distinct [] t d = d
delete_each-Distinct (q ∷ qs) t d =
    delete_each-Distinct qs (remove by_text q.0 t) (remove-Distinct q.0 t d)

evict-Distinct :
    (cfg : BalanceCacheConfig) (t : Cache) → Distinct t → Distinct (evict_if_needed cfg t)
unfolding evict_if_needed
evict-Distinct cfg t d = elim (Bool-cases (leb (length t) cfg.max_size)) [
  | inl fits ↦ rw fits d
  | inr full ↦ rw full (delete_each-Distinct (to_remove cfg t) t d)
]

handle_payload-Distinct :
    (cfg : BalanceCacheConfig) (at : ℕ) (p : Payload) (t : Cache)
    → Distinct t
    → Distinct (handle_payload cfg at p t)
unfolding handle_payload note_balance_updated note_held note_settled note_refunded
    note_partial_settled upsert_user upsert_model
handle_payload-Distinct cfg at (Payload.balance_updated e) t d =
    search (evict-Distinct, upsert-Distinct)
handle_payload-Distinct cfg at (Payload.escrow_held e) t d =
    search (evict-Distinct, upsert-Distinct)
handle_payload-Distinct cfg at (Payload.escrow_settled e) t d =
    search (evict-Distinct, upsert-Distinct)
handle_payload-Distinct cfg at (Payload.escrow_refunded e) t d =
    search (evict-Distinct, upsert-Distinct)
handle_payload-Distinct cfg at (Payload.escrow_partial_settled e) t d =
    search (evict-Distinct, upsert-Distinct)
handle_payload-Distinct cfg at (Payload.ledger_entry_created e) t d = d

handle_payload-le_max :
    (cfg : BalanceCacheConfig) (at : ℕ) (p : Payload) (t : Cache)
    → length t ≤ cfg.max_size
    → length (handle_payload cfg at p t) ≤ cfg.max_size
unfolding handle_payload
handle_payload-le_max cfg at (Payload.balance_updated e) t fits = evict-le_max cfg _
handle_payload-le_max cfg at (Payload.escrow_held e) t fits = evict-le_max cfg _
handle_payload-le_max cfg at (Payload.escrow_settled e) t fits = evict-le_max cfg _
handle_payload-le_max cfg at (Payload.escrow_refunded e) t fits = evict-le_max cfg _
handle_payload-le_max cfg at (Payload.escrow_partial_settled e) t fits = evict-le_max cfg _
handle_payload-le_max cfg at (Payload.ledger_entry_created e) t fits = fits

-- The cache is within its size, and finds each of its entries.
pub record IsValid (cfg : BalanceCacheConfig) (t : Cache) : Type 0 where
  pub bounded : length t ≤ cfg.max_size
  pub distinct : Distinct t

remove-IsValid :
    (cfg : BalanceCacheConfig) (k : String) (t : Cache)
    → IsValid cfg t
    → IsValid cfg (remove by_text k t)
remove-IsValid cfg k t v = record {
  bounded = omega (arith, length-remove-le k t, v.bounded);
  distinct = remove-Distinct k t v.distinct;
}

get_balance-IsValid :
    (cfg : BalanceCacheConfig) (now : ℕ) (id : String) (type : AccountType) (t : Cache)
    → IsValid cfg t
    → IsValid cfg (get_balance cfg now id type t).1
unfolding get_balance
get_balance-IsValid cfg now id type t v =
    elim (Option-cases (get by_text (get_cache_key id type) t)) [
      | inl missing ↦ rw (missing, get_balance) v
      | inr (c, found) ↦ elim (Bool-cases (ltb cfg.ttl_ms (now - c.last_updated))) [
        | inl old ↦ rw (found, get_balance) (rw old (remove-IsValid cfg _ t v))
        | inr fresh ↦ rw (found, get_balance) (rw fresh v)
      ]
    ]

perform-IsValid :
    (cfg : BalanceCacheConfig) (c : Call) (t : Cache)
    → IsValid cfg t
    → IsValid cfg (perform cfg c t)
unfolding perform handle_event invalidate clear
perform-IsValid cfg (handles e) t v = record {
  bounded = handle_payload-le_max cfg e.base.timestamp e.payload t v.bounded;
  distinct = handle_payload-Distinct cfg e.base.timestamp e.payload t v.distinct;
}
perform-IsValid cfg (reads now id type) t v = get_balance-IsValid cfg now id type t v
perform-IsValid cfg (invalidates id type) t v = remove-IsValid cfg (get_cache_key id type) t v
perform-IsValid cfg clears t v = record { bounded = omega arith; distinct = tt }

perform_all-IsValid_from :
    (cfg : BalanceCacheConfig) (cs : List Call) (t : Cache)
    → IsValid cfg t
    → IsValid cfg (perform_all cfg cs t)
unfolding perform_all
perform_all-IsValid_from cfg [] t v = v
perform_all-IsValid_from cfg (c ∷ cs) t v =
    perform_all-IsValid_from cfg cs (perform cfg c t) (perform-IsValid cfg c t v)

-- Whatever events a new cache is given, and whatever is read, invalidated or cleared in between, it
-- never has more entries than its maximal size, and no two under one key.
pub perform_all-IsValid :
    (cfg : BalanceCacheConfig) (cs : List Call) → IsValid cfg (perform_all cfg cs [])
perform_all-IsValid cfg cs =
    perform_all-IsValid_from cfg cs [] (record { bounded = omega arith; distinct = tt })
