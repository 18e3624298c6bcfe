-- ===== src/Accrual/Deduction.antt =====
-- `deductFromAvailable` of services/point-accrual.service.ts with no other request at work.
use red_room_rewards.Prelude.{
  ℕ, suc, ◌-ℤ◌, neg_ℤ, ◌≤ℤ◌, int_laws, arith, String, ◌≡◌, ◌≢◌, refl, true, none, some, ==_refl,
}
use red_room_rewards.Domain.{debit, reason_text-given, available}
use red_room_rewards.Store.{Mongo, Db}
use red_room_rewards.Store.Docs.{Wallet}
use red_room_rewards.Action.{Env, ok, alone, ◌>>=◌}
use red_room_rewards.Service.{State}
use red_room_rewards.Ledger.Pii.{pii_error}
use red_room_rewards.Ledger.Entries.{state_error, correlation_id, entry_doc}
use red_room_rewards.Ledger.Entries.Posts.{Posted}
use red_room_rewards.Ledger.Entries.Alone.{IsAdmissible, MakesIds, create_entry_new}
use red_room_rewards.Ledger.Idempotency.{seen, check_idempotency}
use red_room_rewards.Ledger.Idempotency.Claims.{record_of}
use red_room_rewards.Wallet.Steps.{find_wallet}
use red_room_rewards.Wallet.Steps.Laws.{update_wallet_fits}
use red_room_rewards.Accrual.Requests.{AwardPointsRequest, AwardPointsResponse, PointAccrualConfig}
use red_room_rewards.Accrual.Checks.{
  validate_amount, is_debit, validate_debit_reason, spread, check_first,
}
use red_room_rewards.Accrual.Deduct.{
  deducted_wallet, can_deduct, check_available, deduct_entry, record_deduction, after_deduction,
  deduct_attempts, deduct_from_available,
}

module _ (M : Mongo) (cfg : PointAccrualConfig) (r : AwardPointsRequest) (e : Env (Db M)) where
  -- The amount and the reason pass their checks, the user has the wallet `x`, and no record of the
  -- key is there.
  pub record CanDeduct (x : Wallet) (d : Db M) : Type 0 where
    pub amount : validate_amount cfg r.amount ≡ ok tt
    pub reason : is_debit r.reason ≡ true
    pub wallet : M.wallets.get r.user_id d.wallets ≡ some x
    pub unseen : record_of M r.idempotency_key "deduct_points" d ≡ none

  deduct_entry-IsAdmissible :
      (x : Wallet) (n : ℕ)
      → pii_error (some (spread r.metadata)) ≡ none
      → MakesIds e
      → IsAdmissible (deduct_entry cfg r (e.uuid n) x) (e.uuid n)
  unfolding deduct_entry state_error correlation_id
  deduct_entry-IsAdmissible x n clean ids = record {
    state = refl;
    clean = clean;
    transaction = refl;
    transaction_given = ids.given n;
    transaction_shown = ids.shown n;
    correlation = rw (ids.shown n) refl;
    reason_given = reason_text-given r.reason;
  }

  covered : (x : Wallet) → r.amount ≤ℤ x.available_balance → check_available r x ≡ ok tt
  unfolding check_available
  covered x h = ground arith

  can_deduct-covered :
      (x : Wallet) → r.amount ≤ℤ x.available_balance → can_deduct r.amount x.version x ≡ true
  unfolding can_deduct
  can_deduct-covered x h = rw (==_refl x.version) (ground arith)

  -- The wallet is updated: the state in which the transaction gets its identifier.
  abbrev pub deducted_world : Wallet → State M → State M
  deducted_world x w = record w {
    clock = suc (suc (suc w.clock));
    db = record w.db {
      wallets = M.wallets.put r.user_id (deducted_wallet r.amount x) w.db.wallets;
    };
  }

  attempts_run :
      (k n : ℕ) (x : Wallet) (w : State M)
      → k ≡ suc n
      → CanDeduct x w.db
      → r.amount ≤ℤ x.available_balance
      → deduct_attempts M cfg k true r (alone e) w
        ≡ record_deduction M cfg r x (alone e) (deducted_world x w)
  unfolding deduct_attempts ◌>>=◌ validate_debit_reason check_first check_idempotency seen
      find_wallet after_deduction
  attempts_run k n x w some_left can enough = rw some_left (
      rw can.amount (
        rw can.reason (
          rw (can.unseen, seen)
            (rw can.wallet (
              rw (covered x enough) (
                rw (
                  update_wallet_fits M r.user_id w.db (can_deduct r.amount x.version)
                    (deducted_wallet r.amount) x can.wallet (can_deduct-covered x enough))))))))

  abbrev pub transaction : State M → String
  transaction w = e.uuid (suc (suc (suc w.clock)))

  abbrev pub deduct_response : Wallet → State M → AwardPointsResponse
  deduct_response x w = record {
    transaction_id = transaction w;
    amount_awarded = r.amount;
    new_balance = x.available_balance -ℤ r.amount;
    timestamp = e.now (suc (suc (suc (suc w.clock))));
  }

  -- What a deduction from the wallet `x` leaves in the database `d'`.
  pub record IsDeducted (x : Wallet) (w : State M) (d' : Db M) : Type 0 where
    pub wallet :
        M.wallets.get r.user_id d'.wallets
        ≡ some (record x {
          available_balance = x.available_balance -ℤ r.amount;
          version = suc x.version;
        })
    pub entry :
        Posted M d' r.idempotency_key r.user_id available debit x.available_balance
          (neg_ℤ r.amount)
          (transaction w)
    pub other_wallets :
        (j : String) → j ≢ r.user_id → M.wallets.get j d'.wallets ≡ M.wallets.get j w.db.wallets
    pub model_wallets : d'.model_wallets ≡ w.db.model_wallets
    pub escrow_items : d'.escrow_items ≡ w.db.escrow_items
    pub other_entries :
        (k : String)
        → k ≢ r.idempotency_key
        → M.ledger_entries.get k d'.ledger_entries ≡ M.ledger_entries.get k w.db.ledger_entries
    pub records : d'.idempotency_records ≡ w.db.idempotency_records

  -- With at least one attempt, an amount and a reason that pass their checks, metadata without
  -- personal data, a wallet that covers the amount, and a key that no record and no ledger entry
  -- has, a deduction that runs alone returns the new balance, takes the amount from the user's
  -- available balance and writes a ledger entry, a debit, that says so. No other wallet of a user,
  -- no wallet of a model, no escrow item, no other entry and no idempotency record changes.
  pub deduct_effects :
      (n : ℕ) (x : Wallet) (w : State M)
      → cfg.max_retry_attempts ≡ suc n
      → pii_error (some (spread r.metadata)) ≡ none
      → MakesIds e
      → CanDeduct x w.db
      → r.amount ≤ℤ x.available_balance
      → M.ledger_entries.get r.idempotency_key w.db.ledger_entries ≡ none
      → ((deduct_from_available M cfg r (alone e) w).0 ≡ ok (deduct_response x w))
        × IsDeducted x w (deduct_from_available M cfg r (alone e) w).1.db
  unfolding deduct_from_available record_deduction ◌>>=◌ deducted_wallet deduct_entry entry_doc
  deduct_effects n x w tries clean ids can enough free =
      rw (attempts_run cfg.max_retry_attempts n x w tries can enough) (
        rw
          (create_entry_new M cfg.ledger_currency (deduct_entry cfg r (transaction w) x)
            (transaction w) e
            (record (deducted_world x w) { clock = suc (suc (suc (suc (suc w.clock)))) })
            (deduct_entry-IsAdmissible x (suc (suc (suc w.clock))) clean ids) free)
          (
            refl,
            record {
              wallet = M.wallets.get-put_self _ _ w.db.wallets;
              entry = (
                _,
                M.ledger_entries.get-put_self r.idempotency_key _ w.db.ledger_entries,
                record {
                  of_account = refl;
                  of_state = refl;
                  of_type = refl;
                  moved = refl;
                  was = refl;
                  is = omega int_laws;
                  within = refl;
                },
              );
              other_wallets = λ j ne. M.wallets.get-put_ne j _ _ w.db.wallets ne;
              model_wallets = refl;
              escrow_items = refl;
              other_entries = λ k ne. M.ledger_entries.get-put_ne k _ _ w.db.ledger_entries ne;
              records = refl;
            },
          ))
