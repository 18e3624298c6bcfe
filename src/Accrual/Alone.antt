-- ===== src/Accrual/Alone.antt =====
-- `awardPoints` of services/point-accrual.service.ts with no other request at work.
use red_room_rewards.Prelude.{ℕ, suc, ◌+ℤ◌, String, ◌≡◌, ◌≢◌, refl, true, none, some}
use red_room_rewards.Domain.{credit, reason_text-given, available}
use red_room_rewards.Store.{Mongo, Db}
use red_room_rewards.Store.Docs.{Wallet, LedgerEntry}
use red_room_rewards.Action.{Env, ok, alone, ◌>>=◌}
use red_room_rewards.Service.{State}
use red_room_rewards.Ledger.Pii.{pii_error}
use red_room_rewards.Ledger.Entries.{state_error, correlation_id, entry_doc}
use red_room_rewards.Ledger.Entries.Posts.{Posted}
use red_room_rewards.Ledger.Entries.Alone.{
  IsAdmissible, MakesIds, new_doc, create_entry_new, create_entry_again,
}
use red_room_rewards.Ledger.Idempotency.{seen, check_idempotency}
use red_room_rewards.Ledger.Idempotency.Claims.{record_of}
use red_room_rewards.Wallet.Steps.{find_wallet, get_or_create_wallet, or_create_wallet}
use red_room_rewards.Wallet.Steps.Laws.{update_wallet_current}
use red_room_rewards.Accrual.Requests.{AwardPointsRequest, AwardPointsResponse, PointAccrualConfig}
use red_room_rewards.Accrual.Checks.{
  validate_amount, is_earning, validate_earning_reason, with_field, spread, expiry_value,
  check_first,
}
use red_room_rewards.Accrual.Award.{
  awarded_wallet, award_entry, record_award, after_award, award_attempts, award_points,
}

module _ (M : Mongo) (cfg : PointAccrualConfig) (r : AwardPointsRequest) (e : Env (Db M)) where
  -- The metadata of the entry has no personal data.
  pub record IsClean : Type 0 where
    pub clean :
        pii_error (some (with_field "expiresAt" (expiry_value r.expires_at) (spread r.metadata)))
        ≡ none

  -- The amount and the reason pass their checks, the user has the wallet `x`, and no record of the
  -- key is there.
  pub record CanAward (x : Wallet) (d : Db M) : Type 0 where
    pub amount : validate_amount cfg r.amount ≡ ok tt
    pub reason : is_earning r.reason ≡ true
    pub wallet : M.wallets.get r.user_id d.wallets ≡ some x
    pub unseen : record_of M r.idempotency_key "award_points" d ≡ none

  award_entry-IsAdmissible :
      (x : Wallet) (n : ℕ)
      → IsClean
      → MakesIds e
      → IsAdmissible (award_entry cfg r (e.uuid n) x) (e.uuid n)
  unfolding award_entry state_error correlation_id
  award_entry-IsAdmissible x n c ids = record {
    state = refl;
    clean = c.clean;
    transaction = refl;
    transaction_given = ids.given n;
    transaction_shown = ids.shown n;
    correlation = refl;
    reason_given = reason_text-given r.reason;
  }

  -- The wallet is updated: the state in which the transaction gets its identifier.
  abbrev pub awarded_world : Wallet → State M → State M
  awarded_world x w = record w {
    clock = suc (suc (suc w.clock));
    db = record w.db { wallets = M.wallets.put r.user_id (awarded_wallet r.amount x) w.db.wallets };
  }

  attempts_run :
      (k n : ℕ) (x : Wallet) (w : State M)
      → k ≡ suc n
      → CanAward x w.db
      → award_attempts M cfg k true r (alone e) w
        ≡ record_award M cfg r x (alone e) (awarded_world x w)
  unfolding award_attempts ◌>>=◌ validate_earning_reason check_first check_idempotency seen
      get_or_create_wallet or_create_wallet find_wallet after_award
  attempts_run k n x w some_left can = rw some_left (
      rw can.amount (
        rw can.reason (
          rw (can.unseen, seen)
            (rw can.wallet (
              rw
                (update_wallet_current M r.user_id w.db (awarded_wallet r.amount) x can.wallet))))))

  abbrev pub transaction : State M → String
  transaction w = e.uuid (suc (suc (suc w.clock)))

  abbrev pub award_response : Wallet → State M → AwardPointsResponse
  award_response x w = record {
    transaction_id = transaction w;
    amount_awarded = r.amount;
    new_balance = x.available_balance +ℤ r.amount;
    timestamp = e.now (suc (suc (suc (suc w.clock))));
  }

  -- What an award to the wallet `x` leaves in the database `d'`.
  pub record IsAwarded (x : Wallet) (w : State M) (d' : Db M) : Type 0 where
    pub wallet :
        M.wallets.get r.user_id d'.wallets
        ≡ some (record x {
          available_balance = x.available_balance +ℤ r.amount;
          version = suc x.version;
        })
    pub entry :
        Posted M d' r.idempotency_key r.user_id available credit x.available_balance r.amount
          (transaction w)
    pub other_wallets :
        (j : String) → j ≢ r.user_id → M.wallets.get j d'.wallets ≡ M.wallets.get j w.db.wallets
    pub model_wallets : d'.model_wallets ≡ w.db.model_wallets
    pub escrow_items : d'.escrow_items ≡ w.db.escrow_items
    pub other_entries :
        (k : String)
        → k ≢ r.idempotency_key
        → M.ledger_entries.get k d'.ledger_entries ≡ M.ledger_entries.get k w.db.ledger_entries
    pub records : d'.idempotency_records ≡ w.db.idempotency_records

  record_award_new :
      (x : Wallet) (w : State M)
      → IsAdmissible (award_entry cfg r (e.uuid w.clock) x) (e.uuid w.clock)
      → M.ledger_entries.get r.idempotency_key w.db.ledger_entries ≡ none
      → record_award M cfg r x (alone e) w ≡ (
        ok (record {
          transaction_id = e.uuid w.clock;
          amount_awarded = r.amount;
          new_balance = x.available_balance +ℤ r.amount;
          timestamp = e.now (suc w.clock);
        }),
        record w {
          clock = suc (suc (suc (suc (suc w.clock))));
          db = record w.db {
            ledger_entries =
                M.ledger_entries.put r.idempotency_key
                  (new_doc M cfg.ledger_currency
                    (award_entry cfg r (e.uuid w.clock) x)
                    (e.uuid w.clock)
                    e
                    (record w { clock = suc (suc w.clock) }))
                  w.db.ledger_entries;
          };
        },
      )
  unfolding record_award ◌>>=◌ award_entry
  record_award_new x w a free = rw (
      create_entry_new M cfg.ledger_currency (award_entry cfg r (e.uuid w.clock) x) (e.uuid w.clock)
        e (record w { clock = suc (suc w.clock) }) a free)

  record_award_again :
      (x : Wallet) (w : State M) (old : LedgerEntry)
      → IsAdmissible (award_entry cfg r (e.uuid w.clock) x) (e.uuid w.clock)
      → M.ledger_entries.get r.idempotency_key w.db.ledger_entries ≡ some old
      → record_award M cfg r x (alone e) w ≡ (
        ok (record {
          transaction_id = e.uuid w.clock;
          amount_awarded = r.amount;
          new_balance = x.available_balance +ℤ r.amount;
          timestamp = e.now (suc w.clock);
        }),
        record w { clock = suc (suc (suc (suc (suc (suc w.clock))))) },
      )
  unfolding record_award ◌>>=◌ award_entry
  record_award_again x w old a taken = rw (
      create_entry_again M cfg.ledger_currency (award_entry cfg r (e.uuid w.clock) x)
        (e.uuid w.clock) e (record w { clock = suc (suc w.clock) }) old a taken)

  -- With at least one attempt, an amount and a reason that pass their checks, metadata without
  -- personal data, a wallet, a key that no record and no ledger entry has, an award that runs alone
  -- returns the new balance, adds the amount to the user's available balance and writes a ledger
  -- entry, a credit, that says so. No other wallet of a user, no wallet of a model, no escrow item,
  -- no other entry and no idempotency record changes, so no record of its key is left.
  pub award_effects :
      (n : ℕ) (x : Wallet) (w : State M)
      → cfg.max_retry_attempts ≡ suc n
      → IsClean
      → MakesIds e
      → CanAward x w.db
      → M.ledger_entries.get r.idempotency_key w.db.ledger_entries ≡ none
      → ((award_points M cfg r (alone e) w).0 ≡ ok (award_response x w))
        × IsAwarded x w (award_points M cfg r (alone e) w).1.db
  unfolding award_points awarded_wallet award_entry entry_doc
  award_effects n x w tries c ids can free =
      rw (attempts_run cfg.max_retry_attempts n x w tries can) (
        rw
          (record_award_new x (awarded_world x w)
            (award_entry-IsAdmissible x (awarded_world x w).clock c ids) free)
          (
            refl,
            record {
              wallet = M.wallets.get-put_self _ _ w.db.wallets;
              entry = (
                _,
                M.ledger_entries.get-put_self r.idempotency_key _ w.db.ledger_entries,
                record {
                  of_account = refl;
                  of_state = refl;
                  of_type = refl;
                  moved = refl;
                  was = refl;
                  is = refl;
                  within = refl;
                },
              );
              other_wallets = λ j ne. M.wallets.get-put_ne j _ _ w.db.wallets ne;
              model_wallets = refl;
              escrow_items = refl;
              other_entries = λ k ne. M.ledger_entries.get-put_ne k _ _ w.db.ledger_entries ne;
              records = refl;
            },
          ))

  -- With at least one attempt, an amount and a reason that pass their checks, metadata without
  -- personal data, a wallet and a key that no record has, an award that runs alone under a key
  -- that a ledger entry has already is not refused: it adds the amount to the user's available
  -- balance, and changes nothing else in the database, the ledger and the records included.
  pub award_repeated :
      (n : ℕ) (x : Wallet) (w : State M) (old : LedgerEntry)
      → cfg.max_retry_attempts ≡ suc n
      → IsClean
      → MakesIds e
      → CanAward x w.db
      → M.ledger_entries.get r.idempotency_key w.db.ledger_entries ≡ some old
      → ((award_points M cfg r (alone e) w).0 ≡ ok (award_response x w))
        × ((award_points M cfg r (alone e) w).1.db ≡ record w.db {
          wallets =
              M.wallets.put r.user_id
                (record x {
                  available_balance = x.available_balance +ℤ r.amount;
                  version = suc x.version;
                })
                w.db.wallets;
        })
  unfolding award_points awarded_wallet
  award_repeated n x w old tries c ids can taken =
      rw (attempts_run cfg.max_retry_attempts n x w tries can) (
        rw
          (record_award_again x (awarded_world x w) old
            (award_entry-IsAdmissible x (awarded_world x w).clock c ids) taken)
          (refl, refl))
