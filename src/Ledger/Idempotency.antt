-- ===== src/Ledger/Idempotency.antt =====
-- `checkIdempotency`, `claimIdempotency` and `storeIdempotencyResult` of ledger/ledger.service.ts.
-- A record's key is the pair of the unique index, (pointsIdempotencyKey, eventScope).
pub mod Laws
pub mod Claims
use red_room_rewards.Prelude.{
  ℕ, ◌+◌, ◌*◌, String, Bool, true, false, Option, none, some, str_eq, if◌then◌else◌,
}
use red_room_rewards.Domain.{Error, duplicate_key}
use red_room_rewards.Store.{Mongo, Db}
use red_room_rewards.Store.Docs.{IdempotencyRecord}
use red_room_rewards.Action.{Result, ok, err, pure, throw, atomically, attempt, ◌>>=◌, current_time}
use red_room_rewards.Service.{Service}

-- `record.tenant_id === tenantId`
abbrev pub of_tenant : String → Option String → Bool
of_tenant tenant none = false
of_tenant tenant (some t) = str_eq t tenant

abbrev pub claim_record : String → String → Option String → ℕ → IdempotencyRecord
claim_record key operation tenant now = record {
  points_idempotency_key = key;
  event_scope = operation;
  result_hash = "pending";
  stored_result = "{}";
  expires_at = some (now + 60000);
  retention_until = some (now + 60000);
  tenant_id = tenant;
}

module _ (M : Mongo) where
  open M use {idempotency_records as records}

  unfoldable pub seen : String → String → String → Db M → Result Bool × Db M
  seen key operation tenant d = elim (records.get (key, operation) d.idempotency_records) [
    | none ↦ (ok false, d)
    | some r ↦ (ok (of_tenant tenant r.tenant_id), d)
  ]

  unfoldable pub check_idempotency : String → String → String → Service M Bool
  check_idempotency key operation tenant = atomically (seen key operation tenant)

  -- `IdempotencyRecordModel.create(…)` under the unique index.
  unfoldable pub insert_record : IdempotencyRecord → Db M → Result (Unit {0}) × Db M
  insert_record r d =
      elim (records.get (r.points_idempotency_key, r.event_scope) d.idempotency_records) [
        | some old ↦ (err (duplicate_key "pointsIdempotencyKey,eventScope"), d)
        | none ↦ (
          ok tt,
          record d {
            idempotency_records =
                records.put (r.points_idempotency_key, r.event_scope) r d.idempotency_records;
          },
        )
      ]

  -- The `catch` of the insertion: a duplicate key means that the claim is lost.
  unfoldable pub claimed : Result (Unit {0}) → Service M Bool
  claimed (ok _) = pure true
  claimed (err (duplicate_key path)) = pure false
  claimed (err x) = throw x

  unfoldable pub claim_idempotency : String → String → Option String → Service M Bool
  claim_idempotency key operation tenant = do
    now ← current_time
    result ← attempt (atomically (insert_record (claim_record key operation tenant now)))
    claimed result

  -- `result` is the JSON text of the result.
  unfoldable pub store_idempotency_result : String → String → String → ℕ → Service M (Unit {0})
  store_idempotency_result key operation result ttl_seconds = do
    now ← current_time
    let until = now + ttl_seconds * 1000
    atomically (
        insert_record (record {
          points_idempotency_key = key;
          event_scope = operation;
          result_hash = result;
          stored_result = result;
          expires_at = some until;
          retention_until = some until;
          tenant_id = none;
        }))
