-- ===== src/Events/Cache/Faithful.antt =====
-- The cache of events/balance-snapshot-cache.ts against what the events report.
use mathlib.Core.Path.{subst}
use red_room_rewards.Prelude.{
  ℕ, suc, ◌+◌, ◌-◌, ◌≤◌, ◌<◌, ltb, ◌==◌, String, Bool, true, false, ◌||◌, ◌≡◌, refl, sym, List, [],
  ◌∷◌, map, Option, none, some, All, length, Bool-cases, Option-cases, inl, inr, arith,
}
use red_room_rewards.Domain.{AccountType}
use red_room_rewards.Store.Table.{get, put, by_text}
use red_room_rewards.Events.Types.{Payload, RewardEvent}
use red_room_rewards.Events.Cache.{
  CachedBalance, BalanceCacheConfig, Cache, get_cache_key, upsert, upsert_user, upsert_model,
  note_balance_updated, note_held, note_settled, note_refunded, note_partial_settled,
  handle_payload, handle_event, get_balance,
}
use red_room_rewards.Events.Cache.Eviction.{evict_fitting}
use red_room_rewards.Events.Cache.Calls.{handles, perform, perform_all}
use red_room_rewards.Events.Cache.Reports.{
  Summary, unmentioned, note_payload, summary_from, summary, is_suited, accounts_of,
  accounts_of_all,
}
use red_room_rewards.Events.Cache.Upserts.{updated-Shows, upsert_user-Shows, upsert_model-Shows}
use red_room_rewards.Events.Cache.Shows.{ShowsEntry, Shows}

length-put-le :
    (k : String) (c : CachedBalance) (t : Cache) → length (put by_text k c t) ≤ suc (length t)
length-put-le k c [] = omega arith
length-put-le k c ((j, x) ∷ t) = ground (arith, length-put-le k c t)

length-upsert-le :
    (k : String) (c : CachedBalance) (f : CachedBalance → CachedBalance) (t : Cache)
    → length (upsert k c f t) ≤ suc (length t)
unfolding upsert
length-upsert-le k c f t = elim (Option-cases (get by_text k t)) [
  | inl missing ↦ rw (missing, upsert) (length-put-le k c t)
  | inr (x, found) ↦ rw (found, upsert) (length-put-le k (f x) t)
]

-- What an event writes if nothing has to be evicted.
written : ℕ → Payload → Cache → Cache
written at (Payload.balance_updated e) t = note_balance_updated at e t
written at (Payload.escrow_held e) t = note_held at e t
written at (Payload.escrow_settled e) t = note_settled at e t
written at (Payload.escrow_refunded e) t = note_refunded at e t
written at (Payload.escrow_partial_settled e) t = note_partial_settled at e t
written at (Payload.ledger_entry_created e) t = t

length-written-le :
    (at : ℕ) (p : Payload) (t : Cache) → length (written at p t) ≤ accounts_of p + length t
unfolding written note_balance_updated note_held note_settled note_refunded note_partial_settled
    upsert_user upsert_model
length-written-le at (Payload.balance_updated e) t = omega (arith, length-upsert-le _ _ _ t)
length-written-le at (Payload.escrow_held e) t = omega (arith, length-upsert-le _ _ _ t)
length-written-le at (Payload.escrow_settled e) t = omega (arith, length-upsert-le _ _ _ t)
length-written-le at (Payload.escrow_refunded e) t = omega (arith, length-upsert-le _ _ _ t)
length-written-le at (Payload.escrow_partial_settled e) t = omega (
  arith,
  length-upsert-le _ _ _
      (upsert_user at e.user_id e.user_available_balance e.user_escrow_balance t),
  length-upsert-le _ _ _ t,
)
length-written-le at (Payload.ledger_entry_created e) t = omega arith

handle_payload-written :
    (cfg : BalanceCacheConfig) (at : ℕ) (p : Payload) (t : Cache)
    → length (written at p t) ≤ cfg.max_size
    → handle_payload cfg at p t ≡ written at p t
unfolding handle_payload written
handle_payload-written cfg at (Payload.balance_updated e) t fits = evict_fitting cfg _ fits
handle_payload-written cfg at (Payload.escrow_held e) t fits = evict_fitting cfg _ fits
handle_payload-written cfg at (Payload.escrow_settled e) t fits = evict_fitting cfg _ fits
handle_payload-written cfg at (Payload.escrow_refunded e) t fits = evict_fitting cfg _ fits
handle_payload-written cfg at (Payload.escrow_partial_settled e) t fits = evict_fitting cfg _ fits
handle_payload-written cfg at (Payload.ledger_entry_created e) t fits = refl

module _ (id : String) (type : AccountType) where
  written-Shows :
      (at : ℕ) (p : Payload) (s : Summary) (t : Cache)
      → is_suited p ≡ true
      → Shows s (get by_text (get_cache_key id type) t)
      → Shows (note_payload id type at p s) (get by_text (get_cache_key id type) (written at p t))
  unfolding written note_held note_settled note_refunded note_partial_settled
  written-Shows at (Payload.balance_updated e) s t ok h =
      updated-Shows id at s t e.account_id e.balance_after e.balance_before e.change_amount e.reason
        e.transaction_id e.ledger_entry_id e.metadata type e.account_type e.balance_state ok h
  written-Shows at (Payload.escrow_held e) s t ok h =
      upsert_user-Shows id at s t e.user_id e.user_available_balance e.user_escrow_balance type h
  written-Shows at (Payload.escrow_settled e) s t ok h =
      upsert_model-Shows id at s t e.model_id e.model_earned_balance type h
  written-Shows at (Payload.escrow_refunded e) s t ok h =
      upsert_user-Shows id at s t e.user_id e.user_available_balance e.user_escrow_balance type h
  written-Shows at (Payload.escrow_partial_settled e) s t ok h =
      upsert_model-Shows id at _ _ e.model_id e.model_earned_balance type (
        upsert_user-Shows id at s t e.user_id e.user_available_balance e.user_escrow_balance type h)
  written-Shows at (Payload.ledger_entry_created e) s t ok h = h

  all-Shows :
      (cfg : BalanceCacheConfig) (es : List RewardEvent) (s : Summary) (t : Cache)
      → All (λ e. is_suited e.payload ≡ true) es
      → accounts_of_all es + length t ≤ cfg.max_size
      → Shows s (get by_text (get_cache_key id type) t)
      → Shows
          (summary_from id type s es)
          (get by_text (get_cache_key id type) (perform_all cfg (map handles es) t))
  unfolding summary_from perform_all perform handle_event
  all-Shows cfg [] s t ok fits h = h
  all-Shows cfg (e ∷ es) s t (ok, oks) fits h =
      let grows = length-written-le e.base.timestamp e.payload t in
      let run = handle_payload-written cfg e.base.timestamp e.payload t (omega arith) in
      subst
        (λ u.
          Shows (summary_from id type (note_payload id type e.base.timestamp e.payload s) es)
            (get by_text (get_cache_key id type) (perform_all cfg (map handles es) u)))
        (sym run)
        (all-Shows cfg es _ (written e.base.timestamp e.payload t) oks (omega arith)
          (written-Shows e.base.timestamp e.payload s t ok h))

-- No event mentions the account, or the last that does is older than the time to live.
abbrev pub is_unknown : BalanceCacheConfig → ℕ → Summary → Bool
is_unknown cfg now s = s.mentions == 0 || ltb cfg.ttl_ms (now - s.time)

-- The answer that a summary asks for.
abbrev pub Answers : BalanceCacheConfig → ℕ → Summary → Option CachedBalance → Type 0
Answers cfg now s o =
    (is_unknown cfg now s ≡ true → o ≡ none)
    × (is_unknown cfg now s ≡ false → (c : CachedBalance) × (o ≡ some c) × ShowsEntry s c)

answer :
    (cfg : BalanceCacheConfig) (now : ℕ) (id : String) (type : AccountType) (s : Summary)
    (t : Cache)
    → Shows s (get by_text (get_cache_key id type) t)
    → Answers cfg now s (get_balance cfg now id type t).0
unfolding get_balance
answer cfg now id type s t h = elim (Option-cases (get by_text (get_cache_key id type) t)) [
  | inl missing ↦
      rw (missing, get_balance)
        (let is : s ≡ unmentioned = rw missing at h in
          rw is (λ u. refl, λ k. absurd (ground arith)))
  | inr (c, found) ↦
      let v : ShowsEntry s c = rw found at h in
      let time : c.last_updated ≡ s.time = v.shows_time in
      let some_mention : 0 < s.mentions = v.mentioned in
      elim (Bool-cases (ltb cfg.ttl_ms (now - c.last_updated))) [
        | inl old ↦ rw (found, get_balance) (rw old (λ u. refl, λ k. absurd (ground arith)))
        | inr fresh ↦
            rw (found, get_balance) (rw fresh (λ u. absurd (ground arith), λ k. (c, refl, v)))
      ]
]

-- A new cache has been given events, and the accounts that they mention, counted again at each event
-- that mentions them, number at most its size. It answers for each account with the last reported value of each balance, the number of the events that mention the
-- account and the time of the last of them, where a balance that no event reported is zero or absent;
-- it answers nothing if no event mentions the account or the last that does is older than the time to
-- live. The events must not speak of a user's earned balance or of another balance of a model.
pub get_balance-summary :
    (cfg : BalanceCacheConfig) (now : ℕ) (id : String) (type : AccountType) (es : List RewardEvent)
    → All (λ e. is_suited e.payload ≡ true) es
    → accounts_of_all es ≤ cfg.max_size
    → Answers cfg now
        (summary id type es)
        (get_balance cfg now id type (perform_all cfg (map handles es) [])).0
unfolding summary
get_balance-summary cfg now id type es ok fits =
    answer cfg now id type (summary id type es) _
      (all-Shows id type cfg es unmentioned [] ok (omega arith) refl)
