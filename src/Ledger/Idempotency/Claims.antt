-- ===== src/Ledger/Idempotency/Claims.antt =====
-- `claimIdempotency` and `storeIdempotencyResult` of ledger/ledger.service.ts on a key that is
-- free and on one that is taken.
use red_room_rewards.Prelude.{
  ℕ, suc, String, ◌≡◌, ◌≢◌, ◌∙◌, ap, true, false, Option, none, some, Option-cases, inl, inr,
}
use red_room_rewards.Store.{Mongo, Db}
use red_room_rewards.Store.Docs.{IdempotencyRecord}
use red_room_rewards.Action.{Env, ok, alone, Respects, ◌>>=◌}
use red_room_rewards.Service.{State}
use red_room_rewards.Ledger.Grows.{Grows}
use red_room_rewards.Ledger.Idempotency.{claim_record, insert_record, claimed, claim_idempotency}

module _ (M : Mongo) (key operation : String) where
  open M use {idempotency_records as records}

  -- The record of the key, as it stands in a database.
  abbrev pub record_of : Db M → Option IdempotencyRecord
  record_of d = records.get (key, operation) d.idempotency_records

  -- The database with the record of a claim made at a time.
  abbrev pub with_claim : Option String → ℕ → Db M → Db M
  with_claim tenant now d = record d {
    idempotency_records =
        records.put (key, operation) (claim_record key operation tenant now) d.idempotency_records;
  }

  -- The record of the key is there, and every other record stands as before.
  pub record IsClaimed (before after : Db M) : Type 0 where
    pub there : (y : IdempotencyRecord) × (record_of after ≡ some y)
    pub others :
        (k : String × String)
        → k ≢ (key, operation)
        → records.get k after.idempotency_records ≡ records.get k before.idempotency_records

  pub with_claim-IsClaimed :
      (tenant : Option String) (now : ℕ) (before after : Db M)
      → after.idempotency_records ≡ (with_claim tenant now before).idempotency_records
      → IsClaimed before after
  with_claim-IsClaimed tenant now before after left = record {
    there = (_, ap (records.get (key, operation)) left ∙ records.get-put_self _ _ _);
    others = λ k ne. ap (records.get k) left ∙ records.get-put_ne k _ _ _ ne;
  }

  pub claim_free :
      (tenant : Option String) (e : Env (Db M)) (w : State M)
      → record_of w.db ≡ none
      → claim_idempotency M key operation tenant (alone e) w ≡ (
        ok true,
        record w { clock = suc (suc w.clock); db = with_claim tenant (e.now w.clock) w.db },
      )
  unfolding claim_idempotency ◌>>=◌ claimed insert_record
  claim_free tenant e w free = rw (free, insert_record)

  pub claim_taken :
      (tenant : Option String) (e : Env (Db M)) (w : State M) (r : IdempotencyRecord)
      → record_of w.db ≡ some r
      → claim_idempotency M key operation tenant (alone e) w
        ≡ (ok false, record w { clock = suc (suc w.clock) })
  unfolding claim_idempotency ◌>>=◌ claimed insert_record
  claim_taken tenant e w r taken = rw (taken, insert_record)

  -- What a claim leaves, under any interference.
  granted_leaves :
      (tenant : Option String) (e : Env (Db M)) (w : State M)
      → (claim_idempotency M key operation tenant e w).0 ≡ ok true
      → (r : IdempotencyRecord) × (record_of (claim_idempotency M key operation tenant e w).1.db
          ≡ some r)
  unfolding claim_idempotency ◌>>=◌ claimed insert_record
  granted_leaves tenant e w h =
      let d = e.others (suc w.clock) w.db in
      let r = claim_record key operation tenant (e.now w.clock) in
      elim (Option-cases (record_of d)) [
        | inl new ↦ (
          r,
          rw (new, insert_record) (records.get-put_self (key, operation) r d.idempotency_records),
        )
        | inr (old, found) ↦ absurd (let lost = rw (found, insert_record) at h in cc)
      ]

  taken_refused :
      (tenant : Option String) (e : Env (Db M)) (w : State M) (r : IdempotencyRecord)
      → Respects Grows e
      → record_of w.db ≡ some r
      → (claim_idempotency M key operation tenant e w).0 ≡ ok false
  unfolding claim_idempotency ◌>>=◌ claimed insert_record
  taken_refused tenant e w r grows taken = rw ((grows.step _ w.db).records _ r taken, insert_record)

  -- Once a claim has been granted, no later claim of the same key and operation is, whatever other
  -- requests do in between, as long as they delete no record.
  pub claim_once :
      (tenant tenant' : Option String) (e e' : Env (Db M)) (w w' : State M)
      → (claim_idempotency M key operation tenant e w).0 ≡ ok true
      → Grows (claim_idempotency M key operation tenant e w).1.db w'.db
      → Respects Grows e'
      → (claim_idempotency M key operation tenant' e' w').0 ≡ ok false
  claim_once tenant tenant' e e' w w' granted grows others =
      let (r, left) = granted_leaves tenant e w granted in
      taken_refused tenant' e' w' r others (grows.records _ r left)
