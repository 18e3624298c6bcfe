-- ===== src/Wallet/Hold/Alone.antt =====
-- The ledger entries and the answer of `holdInEscrow` with no other request at work.
use red_room_rewards.Prelude.{
  suc, ◌+ℤ◌, ◌-ℤ◌, String, ◌≡◌, ◌∙◌, refl, false, none, is_empty, suffixed, suffixed-ne,
}
use red_room_rewards.Domain.{EscrowHoldRequest, EscrowHoldResponse}
use red_room_rewards.Store.{Mongo, Db}
use red_room_rewards.Store.Docs.{Wallet, LedgerEntry}
use red_room_rewards.Action.{Env, ok, alone, ◌>>=◌}
use red_room_rewards.Service.{State}
use red_room_rewards.Ledger.Pii.{pii_error}
use red_room_rewards.Ledger.Entries.{correlation_id, state_error}
use red_room_rewards.Ledger.Entries.Alone.{IsAdmissible, MakesIds, new_doc, create_entry_new}
use red_room_rewards.Wallet.Config.{Config}
use red_room_rewards.Wallet.Hold.{debit_entry, credit_entry, record_hold}

-- What a hold request needs of itself: metadata without personal data, and a reason.
pub record IsClean (r : EscrowHoldRequest) : Type 0 where
  pub clean : pii_error r.metadata ≡ none
  pub reason_given : is_empty r.reason ≡ false

module _ (M : Mongo) (cfg : Config) (r : EscrowHoldRequest) (e : Env (Db M)) where
  -- The two ledger keys of the request are free.
  pub record KeysFree (d : Db M) : Type 0 where
    pub debit_free :
        M.ledger_entries.get (suffixed r.idempotency_key "_debit") d.ledger_entries ≡ none
    pub credit_free :
        M.ledger_entries.get (suffixed r.idempotency_key "_credit") d.ledger_entries ≡ none

  module _ (id : String) (x : Wallet) (w : State M) where
    abbrev pub transaction : String
    transaction = e.uuid w.clock

    -- The two ledger documents, made in this order.
    abbrev pub debit_doc : LedgerEntry
    debit_doc =
        new_doc M cfg.ledger_currency (debit_entry cfg r transaction id x) transaction e
          (record w { clock = suc (suc w.clock) })

    abbrev pub credit_doc : LedgerEntry
    credit_doc =
        new_doc M cfg.ledger_currency (credit_entry cfg r transaction id x) transaction e
          (record w { clock = suc (suc (suc (suc (suc w.clock)))) })

    abbrev pub recorded : Db M
    recorded = record w.db {
      ledger_entries = M.ledger_entries.put (suffixed r.idempotency_key "_credit") credit_doc (
          M.ledger_entries.put (suffixed r.idempotency_key "_debit") debit_doc w.db.ledger_entries);
    }

    debit_entry-IsAdmissible :
        IsClean r → MakesIds e → IsAdmissible (debit_entry cfg r transaction id x) transaction
    unfolding debit_entry state_error correlation_id
    debit_entry-IsAdmissible c m = record {
      state = refl;
      clean = c.clean;
      transaction = refl;
      transaction_given = m.given w.clock;
      transaction_shown = m.shown w.clock;
      correlation = refl;
      reason_given = c.reason_given;
    }

    credit_entry-IsAdmissible :
        IsClean r → MakesIds e → IsAdmissible (credit_entry cfg r transaction id x) transaction
    unfolding credit_entry state_error correlation_id
    credit_entry-IsAdmissible c m = record {
      state = refl;
      clean = c.clean;
      transaction = refl;
      transaction_given = m.given w.clock;
      transaction_shown = m.shown w.clock;
      correlation = refl;
      reason_given = c.reason_given;
    }

    abbrev pub hold_response : EscrowHoldResponse
    hold_response = record {
      transaction_id = transaction;
      escrow_id = id;
      previous_balance = x.available_balance;
      new_available_balance = x.available_balance -ℤ r.amount;
      escrow_balance = x.escrow_balance +ℤ r.amount;
      timestamp = e.now (suc w.clock);
    }

    pub record_hold_new :
        IsClean r
        → MakesIds e
        → KeysFree w.db
        → ((record_hold M cfg r id x (alone e) w).0 ≡ ok hold_response)
          × ((record_hold M cfg r id x (alone e) w).1.db ≡ recorded)
    unfolding record_hold ◌>>=◌ debit_entry credit_entry
    record_hold_new c m free =
        let first =
          create_entry_new M cfg.ledger_currency (debit_entry cfg r transaction id x) transaction e
            (record w { clock = suc (suc w.clock) }) (debit_entry-IsAdmissible c m)
            free.debit_free in
        let second =
          create_entry_new M cfg.ledger_currency (credit_entry cfg r transaction id x) transaction e
            (record w {
              clock = suc (suc (suc (suc (suc w.clock))));
              db = record w.db {
                ledger_entries =
                    M.ledger_entries.put (suffixed r.idempotency_key "_debit") debit_doc
                      w.db.ledger_entries;
              };
            })
            (credit_entry-IsAdmissible c m)
            (M.ledger_entries.get-put_ne _ _ debit_doc w.db.ledger_entries
                (suffixed-ne r.idempotency_key "_credit" "_debit" (cc))
              ∙ free.credit_free) in
        rw first (rw second (refl, refl))
