-- ===== src/Ledger/Entries/Alone.antt =====
-- `createEntry` of ledger/ledger.service.ts with no other request at work.
use red_room_rewards.Prelude.{ℕ, suc, String, ◌≡◌, false, none, some, is_blank, is_empty}
use red_room_rewards.Domain.{CreateLedgerEntryRequest}
use red_room_rewards.Store.{Mongo, Db}
use red_room_rewards.Store.Docs.{LedgerEntry}
use red_room_rewards.Action.{Env, ok, alone, ◌>>=◌}
use red_room_rewards.Service.{State}
use red_room_rewards.Ledger.Pii.{pii_error}
use red_room_rewards.Ledger.Entries.{
  state_error, correlation_id, require_ids, entry_doc, map_to_domain, insert_entry, find_by_key,
  found_or, recover, inserted, given_or_fresh, create_entry,
}

-- The identifiers that the environment makes are not blank, as those of `uuidv4` are not.
pub record MakesIds {Db : Type 0} (e : Env Db) : Type 0 where
  pub given : (n : ℕ) → is_empty (e.uuid n) ≡ false
  pub shown : (n : ℕ) → is_blank (e.uuid n) ≡ false

-- A request that passes the checks of `createEntry`, as the services make it: it has the
-- transaction's id, which its correlation id is too.
pub record IsAdmissible (r : CreateLedgerEntryRequest) (t : String) : Type 0 where
  pub state : state_error r.account_type r.balance_state ≡ none
  pub clean : pii_error r.metadata ≡ none
  pub transaction : r.transaction_id ≡ some t
  pub transaction_given : is_empty t ≡ false
  pub transaction_shown : is_blank t ≡ false
  pub correlation : correlation_id r.correlation_id t ≡ t
  pub reason_given : is_empty r.reason ≡ false

module _ (M : Mongo) (currency : String) (r : CreateLedgerEntryRequest) (t : String)
    (e : Env (Db M)) (w : State M) where
  -- The document that is inserted.
  abbrev pub new_doc : LedgerEntry
  new_doc = entry_doc r (e.uuid w.clock) t (e.now (suc w.clock)) currency t

  pub create_entry_new :
      IsAdmissible r t
      → M.ledger_entries.get r.idempotency_key w.db.ledger_entries ≡ none
      → create_entry M currency r (alone e) w ≡ (
        ok (map_to_domain new_doc),
        record w {
          clock = suc (suc (suc w.clock));
          db = record w.db {
            ledger_entries = M.ledger_entries.put r.idempotency_key new_doc w.db.ledger_entries;
          };
        },
      )
  unfolding create_entry ◌>>=◌ given_or_fresh require_ids insert_entry inserted entry_doc
  create_entry_new a free =
      simp
        (
          a.state, a.clean, a.transaction, a.transaction_given, a.transaction_shown, a.correlation,
          a.reason_given,
        )
        (rw (free, insert_entry))

  -- An entry that passes the checks under a key that is taken: the caller gets the entry that
  -- stands under it, whatever it says, and nothing is written.
  pub create_entry_again :
      (old : LedgerEntry)
      → IsAdmissible r t
      → M.ledger_entries.get r.idempotency_key w.db.ledger_entries ≡ some old
      → create_entry M currency r (alone e) w
        ≡ (ok (map_to_domain old), record w { clock = suc (suc (suc (suc w.clock))) })
  unfolding create_entry ◌>>=◌ given_or_fresh require_ids insert_entry inserted entry_doc recover
      found_or find_by_key
  create_entry_again old a taken =
      simp
        (
          a.state, a.clean, a.transaction, a.transaction_given, a.transaction_shown, a.correlation,
          a.reason_given,
        )
        (rw (taken, insert_entry) (rw (taken, find_by_key)))
