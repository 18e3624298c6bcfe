-- ===== src/Ledger/Idempotency/Laws.antt =====
-- The guarantees of the idempotency methods of ledger/ledger.service.ts, from those of the
-- insertion of a record.
use red_room_rewards.Prelude.{Option-cases, inl, inr, ℕ, String, Option}
use red_room_rewards.Domain.{duplicate_key}
use red_room_rewards.Store.{Mongo, Db}
use red_room_rewards.Store.Docs.{IdempotencyRecord}
use red_room_rewards.Action.{Result, ok, err}
use red_room_rewards.Action.Keeps.{
  Preorder, Guarantees, Guarantees-pure, Guarantees-throw, Guarantees-atomically,
  Guarantees-attempt, Guarantees-current_time, Guarantees-bind,
}
use red_room_rewards.WalletEvents.{WalletEvent}
use red_room_rewards.Ledger.Idempotency.{
  seen, check_idempotency, insert_record, claimed, claim_idempotency, store_idempotency_result,
}

module _ (M : Mongo) {G : Db M → Db M → Type 0} (o : Preorder G) where
  module _ (records : (r : IdempotencyRecord) (d : Db M) → G d (insert_record M r d).1) where
    claimed-Guarantees : (x : Result (Unit {0})) → Guarantees G (claimed M x)
    unfolding claimed
    claimed-Guarantees (ok u) = Guarantees-pure o _
    claimed-Guarantees (err (duplicate_key path)) = Guarantees-pure o _
    claimed-Guarantees (err x) = Guarantees-throw o x

    pub claim_idempotency-Guarantees :
        (key operation : String) (tenant : Option String)
        → Guarantees G (claim_idempotency M key operation tenant)
    unfolding claim_idempotency
    claim_idempotency-Guarantees key operation tenant = search (
      Guarantees-bind o,
      Guarantees-current_time o,
      Guarantees-attempt o,
      Guarantees-atomically o,
      claimed-Guarantees,
      records,
    )

    pub store_idempotency_result-Guarantees :
        (key operation result : String) (ttl : ℕ)
        → Guarantees G (store_idempotency_result M key operation result ttl)
    unfolding store_idempotency_result
    store_idempotency_result-Guarantees key operation result ttl =
        search (Guarantees-bind o, Guarantees-current_time o, Guarantees-atomically o, records)

module _ (M : Mongo) {G : Db M → Db M → Type 0} (o : Preorder G) where
  seen-reads : (key operation tenant : String) (d : Db M) → G d (seen M key operation tenant d).1
  unfolding seen
  seen-reads key operation tenant d =
      elim (Option-cases (M.idempotency_records.get (key, operation) d.idempotency_records)) [
        | inl new ↦ rw (new, seen) (o.rel_refl d)
        | inr (r, found) ↦ rw (found, seen) (o.rel_refl d)
      ]

  pub check_idempotency-Guarantees :
      (key operation tenant : String)
      → Guarantees {Event = WalletEvent} G (check_idempotency M key operation tenant)
  unfolding check_idempotency
  check_idempotency-Guarantees key operation tenant =
      Guarantees-atomically o _ (seen-reads key operation tenant)
