-- ===== src/Events/Cache/Upserts.antt =====
-- What one write of the cache of events/balance-snapshot-cache.ts does to the entry of an account,
-- against the summary of the reports.
use red_room_rewards.Prelude.{
  ℕ, suc, ℤ, String, str_eq, str_eq_iff, suffixed, texts-differ, true, ◌≡◌, ◌≢◌, refl, sym, ap,
  Option, some, Bool-cases, Option-cases, inl, inr, arith,
}
use red_room_rewards.Domain.{Metadata, AccountType, BalanceState, available, escrow, earned}
use red_room_rewards.Store.Table.{get, by_text, get-put_self, get-put_ne}
use red_room_rewards.Events.Types.{BalanceUpdatedEvent}
use red_room_rewards.Events.Cache.{
  CachedBalance, Cache, get_cache_key, upsert, upsert_user, upsert_model, first_balance, touched,
  with_balance, note_balance_updated,
}
use red_room_rewards.Events.Cache.Shows.{
  ShowsEntry, Shows, user-model-differ, key-injective, pick, skip,
}
use red_room_rewards.Events.Cache.Reports.{
  of_state, of_balance, of_user, of_model, Summary, unmentioned, note, suits,
}

module _ (k : String) (s s' : Summary) (j : String) (new_entry : CachedBalance)
    (change : CachedBalance → CachedBalance) (t : Cache) where
  upsert-Shows :
      Shows s (get by_text k t)
      → (k ≡ j → s ≡ unmentioned → ShowsEntry s' new_entry)
      → (k ≡ j → (c : CachedBalance) → ShowsEntry s c → ShowsEntry s' (change c))
      → (k ≢ j → s' ≡ s)
      → Shows s' (get by_text k (upsert j new_entry change t))
  unfolding upsert
  upsert-Shows h first again other = elim (Bool-cases (str_eq k j)) [
    | inl same ↦
        let is = (str_eq_iff k j).0 same in
        elim (Option-cases (get by_text j t)) [
          | inl missing ↦
              rw (missing, upsert)
                (rw is
                  (rw (get-put_self by_text j new_entry t) (first is (rw missing at (rw is at h)))))
          | inr (c, found) ↦
              rw (found, upsert)
                (rw is (
                  rw (get-put_self by_text j (change c) t) (again is c (rw found at (rw is at h)))))
        ]
    | inr ne ↦
        let differ = texts-differ k j ne in
        elim (Option-cases (get by_text j t)) [
          | inl missing ↦
              rw (missing, upsert)
                (rw (get-put_ne by_text k j new_entry t differ) (rw (other differ) h))
          | inr (c, found) ↦
              rw (found, upsert)
                (rw (get-put_ne by_text k j (change c) t differ) (rw (other differ) h))
        ]
  ]

module _ (id : String) (at : ℕ) (s : Summary) (t : Cache) where
  module _ (uid : String) (in_available in_escrow : ℤ) where
    pub upsert_user-Shows :
        (type : AccountType)
        → Shows s (get by_text (get_cache_key id type) t)
        → Shows
            (note at (of_user id type uid in_available in_escrow) s)
            (get by_text (get_cache_key id type) (upsert_user at uid in_available in_escrow t))
    unfolding upsert_user
    upsert_user-Shows AccountType.user h =
        upsert-Shows (suffixed "user:" id) s _ (suffixed "user:" uid) _ _ t h
          (λ is new. rw (pick id uid _ _ (key-injective AccountType.user id uid is)) (
            rw new (record {
              mentioned = omega arith;
              shows_available = refl;
              shows_escrow = refl;
              shows_earned = refl;
              shows_time = refl;
              shows_count = refl;
            })))
          (λ is c v. rw (pick id uid _ _ (key-injective AccountType.user id uid is)) (record {
            mentioned = omega arith;
            shows_available = refl;
            shows_escrow = refl;
            shows_earned = v.shows_earned;
            shows_time = refl;
            shows_count = ap suc v.shows_count;
          }))
          (λ ne. rw (skip id uid _ _ (λ same. ne (ap (suffixed "user:") same))) refl)
    upsert_user-Shows AccountType.model h =
        upsert-Shows (suffixed "model:" id) s s (suffixed "user:" uid) _ _ t h
          (λ is new. absurd (user-model-differ uid id (sym is)))
          (λ is c v. absurd (user-model-differ uid id (sym is))) (λ ne. refl)

  module _ (mid : String) (in_earned : ℤ) where
    pub upsert_model-Shows :
        (type : AccountType)
        → Shows s (get by_text (get_cache_key id type) t)
        → Shows
            (note at (of_model id type mid in_earned) s)
            (get by_text (get_cache_key id type) (upsert_model at mid in_earned t))
    unfolding upsert_model
    upsert_model-Shows AccountType.model h =
        upsert-Shows (suffixed "model:" id) s _ (suffixed "model:" mid) _ _ t h
          (λ is new. rw (pick id mid _ _ (key-injective AccountType.model id mid is)) (
            rw new (record {
              mentioned = omega arith;
              shows_available = refl;
              shows_escrow = refl;
              shows_earned = refl;
              shows_time = refl;
              shows_count = refl;
            })))
          (λ is c v. rw (pick id mid _ _ (key-injective AccountType.model id mid is)) (record {
            mentioned = omega arith;
            shows_available = v.shows_available;
            shows_escrow = v.shows_escrow;
            shows_earned = refl;
            shows_time = refl;
            shows_count = ap suc v.shows_count;
          }))
          (λ ne. rw (skip id mid _ _ (λ same. ne (ap (suffixed "model:") same))) refl)
    upsert_model-Shows AccountType.user h =
        upsert-Shows (suffixed "user:" id) s s (suffixed "model:" mid) _ _ t h
          (λ is new. absurd (user-model-differ id mid is))
          (λ is c v. absurd (user-model-differ id mid is)) (λ ne. refl)

  -- The parts of a `BalanceUpdatedEvent`, to match on.
  module _ (aid : String) (after before change_amount : ℤ) (reason tid lid : String)
      (metadata : Option Metadata) where
    abbrev pub updated : AccountType → BalanceState → BalanceUpdatedEvent
    updated type state = record {
      account_id = aid;
      account_type = type;
      balance_state = state;
      balance_before = before;
      balance_after = after;
      change_amount = change_amount;
      reason = reason;
      transaction_id = tid;
      ledger_entry_id = lid;
      metadata = metadata;
    }

    first_shown :
        (type : AccountType) (state : BalanceState)
        → suits type state ≡ true
        → ShowsEntry
            (note at (some (of_state state after)) unmentioned)
            (first_balance at (updated type state))
    first_shown AccountType.user available ok = record {
      mentioned = omega arith;
      shows_available = refl;
      shows_escrow = refl;
      shows_earned = refl;
      shows_time = refl;
      shows_count = refl;
    }
    first_shown AccountType.user escrow ok = record {
      mentioned = omega arith;
      shows_available = refl;
      shows_escrow = refl;
      shows_earned = refl;
      shows_time = refl;
      shows_count = refl;
    }
    first_shown AccountType.model earned ok = record {
      mentioned = omega arith;
      shows_available = refl;
      shows_escrow = refl;
      shows_earned = refl;
      shows_time = refl;
      shows_count = refl;
    }
    first_shown AccountType.user earned ok = absurd (cc)
    first_shown AccountType.model available ok = absurd (cc)
    first_shown AccountType.model escrow ok = absurd (cc)

    changed_shown :
        (state : BalanceState) (c : CachedBalance)
        → ShowsEntry s c
        → ShowsEntry
            (note at (some (of_state state after)) s)
            (touched at (with_balance state after c))
    changed_shown available c v = record {
      mentioned = omega arith;
      shows_available = refl;
      shows_escrow = v.shows_escrow;
      shows_earned = v.shows_earned;
      shows_time = refl;
      shows_count = ap suc v.shows_count;
    }
    changed_shown escrow c v = record {
      mentioned = omega arith;
      shows_available = v.shows_available;
      shows_escrow = refl;
      shows_earned = v.shows_earned;
      shows_time = refl;
      shows_count = ap suc v.shows_count;
    }
    changed_shown earned c v = record {
      mentioned = omega arith;
      shows_available = v.shows_available;
      shows_escrow = v.shows_escrow;
      shows_earned = refl;
      shows_time = refl;
      shows_count = ap suc v.shows_count;
    }

    pub updated-Shows :
        (type account_type : AccountType) (state : BalanceState)
        → suits account_type state ≡ true
        → Shows s (get by_text (get_cache_key id type) t)
        → Shows (note at (of_balance id type (updated account_type state)) s) (
            get by_text
              (get_cache_key id type)
              (note_balance_updated at (updated account_type state) t))
    unfolding note_balance_updated
    updated-Shows AccountType.user AccountType.user state ok h =
        upsert-Shows (suffixed "user:" id) s _ (suffixed "user:" aid) _ _ t h
          (λ is new.
            rw (pick id aid _ _ (key-injective AccountType.user id aid is))
              (rw new (first_shown AccountType.user state ok)))
          (λ is c v.
            rw (pick id aid _ _ (key-injective AccountType.user id aid is))
              (changed_shown state c v))
          (λ ne. rw (skip id aid _ _ (λ same. ne (ap (suffixed "user:") same))) refl)
    updated-Shows AccountType.model AccountType.model state ok h =
        upsert-Shows (suffixed "model:" id) s _ (suffixed "model:" aid) _ _ t h
          (λ is new.
            rw (pick id aid _ _ (key-injective AccountType.model id aid is))
              (rw new (first_shown AccountType.model state ok)))
          (λ is c v.
            rw (pick id aid _ _ (key-injective AccountType.model id aid is))
              (changed_shown state c v))
          (λ ne. rw (skip id aid _ _ (λ same. ne (ap (suffixed "model:") same))) refl)
    updated-Shows AccountType.user AccountType.model state ok h =
        upsert-Shows (suffixed "user:" id) s s (suffixed "model:" aid) _ _ t h
          (λ is new. absurd (user-model-differ id aid is))
          (λ is c v. absurd (user-model-differ id aid is)) (λ ne. refl)
    updated-Shows AccountType.model AccountType.user state ok h =
        upsert-Shows (suffixed "model:" id) s s (suffixed "user:" aid) _ _ t h
          (λ is new. absurd (user-model-differ aid id (sym is)))
          (λ is c v. absurd (user-model-differ aid id (sym is))) (λ ne. refl)
