-- ===== src/Ledger/Grows.antt =====
-- The append-only order on databases: ledger entries and idempotency records, as
-- ledger/ledger.service.ts inserts them.
use red_room_rewards.Prelude.{String, ◌≡◌, some, Option-cases, inl, inr}
use red_room_rewards.Store.{Mongo, Db}
use red_room_rewards.Store.Interface.{get-put_new}
use red_room_rewards.Store.Docs.{LedgerEntry, IdempotencyRecord}
use red_room_rewards.Action.Keeps.{Preorder}
use red_room_rewards.Ledger.Entries.{insert_entry}
use red_room_rewards.Ledger.Idempotency.{insert_record}

-- Every entry of `d` is in `d'`, unchanged, and every record too.
pub record Grows {M : Mongo} (d d' : Db M) : Type 0 where
  pub entries :
      (k : String) (e : LedgerEntry)
      → M.ledger_entries.get k d.ledger_entries ≡ some e
      → M.ledger_entries.get k d'.ledger_entries ≡ some e
  pub records :
      (k : String × String) (r : IdempotencyRecord)
      → M.idempotency_records.get k d.idempotency_records ≡ some r
      → M.idempotency_records.get k d'.idempotency_records ≡ some r

pub Grows-Preorder : {M : Mongo} → Preorder {Db = Db M} Grows
Grows-Preorder = record {
  rel_refl = λ d. record { entries = λ k e h. h; records = λ k r h. h };
  rel_trans = λ g h. record {
    entries = λ k e q. h.entries k e (g.entries k e q);
    records = λ k r q. h.records k r (g.records k r q);
  };
}

module _ {M : Mongo} where
  -- Two databases with the same entries and records.
  pub same-Grows :
      (d d' : Db M)
      → d'.ledger_entries ≡ d.ledger_entries
      → d'.idempotency_records ≡ d.idempotency_records
      → Grows d d'
  same-Grows d d' p q = record { entries = λ k e h. rw p h; records = λ k r h. rw q h }

  pub insert_entry-Grows : (e : LedgerEntry) (d : Db M) → Grows d (insert_entry M e d).1
  unfolding insert_entry
  insert_entry-Grows e d =
      elim (Option-cases (M.ledger_entries.get e.idempotency_key d.ledger_entries)) [
        | inl new ↦
            rw (new, insert_entry)
              (record {
                entries = λ k x h.
                    get-put_new M.ledger_entries k e.idempotency_key e x d.ledger_entries new h;
                records = λ k r h. h;
              })
        | inr (old, found) ↦ rw (found, insert_entry) (Grows-Preorder.rel_refl d)
      ]

  pub insert_record-Grows : (r : IdempotencyRecord) (d : Db M) → Grows d (insert_record M r d).1
  unfolding insert_record
  insert_record-Grows r d =
      elim (Option-cases (
        M.idempotency_records.get (r.points_idempotency_key, r.event_scope)
          d.idempotency_records)) [
            | inl new ↦
                rw (new, insert_record)
                  (record {
                    entries = λ k x h. h;
                    records = λ k x h.
                        get-put_new M.idempotency_records k _ r x d.idempotency_records new h;
                  })
            | inr (old, found) ↦ rw (found, insert_record) (Grows-Preorder.rel_refl d)
          ]
