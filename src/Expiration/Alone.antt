-- ===== src/Expiration/Alone.antt =====
-- `processUserExpiration` of services/point-expiration.service.ts with no other request at work.
use red_room_rewards.Prelude.{
  ◌+ℤ◌, ◌+◌, ◌*◌, ◌≤◌, List, [], ◌∷◌, ℕ, suc, ℤ, pos, ◌-ℤ◌, neg_ℤ, min_ℤ, eqb_ℤ, leb_ℤ, take, map,
  String, ◌≡◌, ◌≢◌, refl, false, some,
}
use red_room_rewards.Domain.{available, debit, Metadata, MetaValue, reason_text-given, point_expiry}
use red_room_rewards.Store.{Mongo, Db}
use red_room_rewards.Store.Docs.{Wallet, LedgerEntry}
use red_room_rewards.Action.{Env, ok, alone, ◌>>=◌}
use red_room_rewards.Service.{State}
use red_room_rewards.Ledger.Pii.{pii_error, is_pii_field}
use red_room_rewards.Ledger.Entries.{state_error, correlation_id, map_to_domain}
use red_room_rewards.Ledger.Entries.Alone.{IsAdmissible, MakesIds, create_entry_again}
use red_room_rewards.Ledger.Entries.Posts.{Posted}
use red_room_rewards.Ledger.Query.{
  query_entries, find_page, count_matches, page_limit, sorted_matches,
}
use red_room_rewards.Wallet.Steps.{find_wallet}
use red_room_rewards.Wallet.Steps.Laws.{update_wallet_current}
use red_room_rewards.Expiration.{
  field, Dates, UserExpirationDetails, PointExpirationConfig, credits_of, total_expired,
  expired_wallet, expiration_key, expiration_entry, answered, record_expiration, debit_expired,
  expire_total, expiration_attempt, process_user_expiration,
}

module _ (D : Dates) (cfg : PointExpirationConfig) (now : ℕ) where
  -- The entry's metadata names a date under expiresAt, and the days of grace after it are over.
  pub record Past (x : LedgerEntry) : Type 0 where
    pub metadata : Metadata
    pub value : MetaValue
    pub date : ℕ
    pub given : x.metadata ≡ some metadata
    pub named : field "expiresAt" metadata ≡ some value
    pub dated : D.of value ≡ some date
    pub over : date + cfg.grace_period_days * 86400000 ≤ now

  -- The amounts of those entries that are past their date have the sum `T`.
  pub data SumsTo : List LedgerEntry → ℤ → Type 0 where
    nothing : SumsTo [] (pos 0)
    adds :
        (x : LedgerEntry) (xs : List LedgerEntry) (T : ℤ)
        → Past x
        → SumsTo xs T
        → SumsTo (x ∷ xs) (x.amount +ℤ T)
    skips :
        (x : LedgerEntry) (xs : List LedgerEntry) (T : ℤ)
        → (Past x → ⊥)
        → SumsTo xs T
        → SumsTo (x ∷ xs) T

module _ (M : Mongo) (D : Dates) (cfg : PointExpirationConfig) (user_id request_id : String)
    (e : Env (Db M)) where
  expiration_entry-IsAdmissible :
      (n : ℕ) (now : ℕ) (amount : ℤ) (x : Wallet)
      → MakesIds e
      → IsAdmissible (expiration_entry D cfg user_id request_id (e.uuid n) now amount x) (e.uuid n)
  unfolding expiration_entry state_error correlation_id pii_error is_pii_field
  expiration_entry-IsAdmissible n now amount x ids = record {
    state = refl;
    clean = rw (D.no_email now) refl;
    transaction = refl;
    transaction_given = ids.given n;
    transaction_shown = ids.shown n;
    correlation = refl;
    reason_given = reason_text-given point_expiry;
  }

  expire_total_run :
      (total : ℤ) (x : Wallet) (w : State M)
      → M.wallets.get user_id w.db.wallets ≡ some x
      → eqb_ℤ total (pos 0) ≡ false
      → leb_ℤ (min_ℤ total x.available_balance) (pos 0) ≡ false
      → expire_total M D cfg user_id request_id total (alone e) w
        ≡ record_expiration M D cfg user_id request_id
            (min_ℤ total x.available_balance)
            x
            (alone e)
            (record w {
              clock = suc (suc w.clock);
              db = record w.db {
                wallets =
                    M.wallets.put user_id
                      (expired_wallet (min_ℤ total x.available_balance) x)
                      w.db.wallets;
              };
            })
  unfolding expire_total debit_expired ◌>>=◌ find_wallet
  expire_total_run total x w wallet found covered = rw found (
      rw wallet (
        rw covered (
          rw (
            update_wallet_current M user_id w.db (expired_wallet (min_ℤ total x.available_balance))
              x wallet))))

  module _ (x : Wallet) (w : State M) where
    -- The credits that are found expired: those of the first page of the query.
    abbrev pub first_page : List LedgerEntry
    first_page = map map_to_domain (
        take (page_limit (credits_of user_id)) (sorted_matches M (credits_of user_id) w.clock w.db))

    abbrev pub expired_points : ℤ
    expired_points = total_expired D cfg (e.now (suc (suc w.clock))) first_page

    abbrev pub amount : ℤ
    amount = min_ℤ expired_points x.available_balance

    -- The user has the wallet `x` and points to expire.
    pub record CanExpire : Type 0 where
      pub wallet : M.wallets.get user_id w.db.wallets ≡ some x
      pub found : eqb_ℤ expired_points (pos 0) ≡ false
      pub covered : leb_ℤ amount (pos 0) ≡ false

    -- The wallet is updated: the state in which the transaction gets its identifier.
    abbrev pub debited_world : State M
    debited_world = record w {
      clock = suc (suc (suc (suc (suc w.clock))));
      db = record w.db { wallets = M.wallets.put user_id (expired_wallet amount x) w.db.wallets };
    }

    abbrev pub transaction : String
    transaction = e.uuid debited_world.clock

    abbrev pub booked_at : ℕ
    booked_at = e.now (suc debited_world.clock)

    abbrev pub details : UserExpirationDetails
    details = record {
      user_id = user_id;
      amount_expired = amount;
      transaction_id = transaction;
      timestamp = booked_at;
    }

    attempt_run :
        CanExpire
        → expiration_attempt M D cfg user_id request_id (alone e) w
          ≡ record_expiration M D cfg user_id request_id amount x (alone e) debited_world
    unfolding expiration_attempt query_entries find_page count_matches ◌>>=◌ find_wallet
    attempt_run can =
        expire_total_run expired_points x (record w { clock = suc (suc (suc w.clock)) }) can.wallet
          can.found can.covered

    record_again :
        (old : LedgerEntry)
        → MakesIds e
        → M.ledger_entries.get (expiration_key user_id (D.date_key booked_at)) w.db.ledger_entries
          ≡ some old
        → record_expiration M D cfg user_id request_id amount x (alone e) debited_world ≡ (
          ok (answered (some details)),
          record debited_world { clock = suc (suc (suc (suc (suc (suc debited_world.clock))))) },
        )
    unfolding record_expiration ◌>>=◌ expiration_entry
    record_again old ids taken = rw (
        create_entry_again M cfg.ledger_currency
          (expiration_entry D cfg user_id request_id transaction booked_at amount x) transaction e
          (record debited_world { clock = suc (suc debited_world.clock) }) old
          (expiration_entry-IsAdmissible debited_world.clock booked_at amount x ids) taken)

    -- What an expiration of `taken` points leaves in the database `d'`.
    pub record IsExpired (taken : ℤ) (d' : Db M) : Type 0 where
      pub wallet :
          M.wallets.get user_id d'.wallets
          ≡ some (record x {
            available_balance = x.available_balance -ℤ taken;
            version = suc x.version;
          })
      pub entry :
          Posted M d'
            (expiration_key user_id (D.date_key booked_at))
            user_id
            available
            debit
            x.available_balance
            (neg_ℤ taken)
            transaction
      pub other_wallets :
          (j : String) → j ≢ user_id → M.wallets.get j d'.wallets ≡ M.wallets.get j w.db.wallets
      pub other_entries :
          (k : String)
          → k ≢ expiration_key user_id (D.date_key booked_at)
          → M.ledger_entries.get k d'.ledger_entries ≡ M.ledger_entries.get k w.db.ledger_entries
      pub model_wallets : d'.model_wallets ≡ w.db.model_wallets
      pub escrow_items : d'.escrow_items ≡ w.db.escrow_items
      pub records : d'.idempotency_records ≡ w.db.idempotency_records

    -- An expiration that runs alone on a day for which the ledger has one of the user already takes
    -- the expired credits of the page from the balance, whether or not they have been taken before, and
    -- changes nothing else in the database: no entry says so.
    pub expire_repeated :
        (n : ℕ) (old : LedgerEntry)
        → MakesIds e
        → CanExpire
        → M.ledger_entries.get (expiration_key user_id (D.date_key booked_at)) w.db.ledger_entries
          ≡ some old
        → ((process_user_expiration M D cfg user_id request_id (suc n) (alone e) w).0
            ≡ ok (answered (some details)))
          × ((process_user_expiration M D cfg user_id request_id (suc n) (alone e) w).1.db
              ≡ record w.db {
                wallets =
                    M.wallets.put user_id
                      (record x {
                        available_balance = x.available_balance -ℤ amount;
                        version = suc x.version;
                      })
                      w.db.wallets;
              })
    unfolding process_user_expiration expired_wallet ◌>>=◌
    expire_repeated n old ids can taken =
        rw (attempt_run can) (rw (record_again old ids taken) (refl, refl))
