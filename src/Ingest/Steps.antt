-- ===== src/Ingest/Steps.antt =====
-- The database calls of ingest-worker/worker.ts and ingest-worker/replay.ts, one atomic step each.
use red_room_rewards.Prelude.{
  ℕ, suc, String, str_eq, Bool, true, false, ◌||◌, List, [], ◌∷◌, Option, none, some, any, take,
  sort_by, pos, is_empty, if◌then◌else◌,
}
use red_room_rewards.Domain.{duplicate_key, validation_failed}
use red_room_rewards.Store.Docs.{IdempotencyRecord}
use red_room_rewards.Action.{Result, ok, err}
use red_room_rewards.Ingest.{
  processing, IngestEvent, DlqEvent, IngestStores, IngestDb, is_queued, is_processing, is_due,
}

abbrev pub is_claimable : IngestEvent → Bool
is_claimable e = is_queued e.status || is_processing e.status

-- `{ $set: { status: PROCESSING }, $inc: { attempts: 1 } }`
abbrev pub claimed : IngestEvent → IngestEvent
claimed e = record e { status = processing; attempts = suc e.attempts }

abbrev pub first_of : {A : Type 0} → List A → Option A
first_of [] = none
first_of (x ∷ xs) = some x

abbrev pub found : {A : Type 0} → Option A → Bool
found none = false
found (some a) = true

module _ (S : IngestStores) where
  unfoldable pub find_due : ℕ → ℕ → IngestDb S → Result (List IngestEvent) × IngestDb S
  find_due now limit d = (ok (take limit (S.ingest_events.find (is_due now) d.ingest_events)), d)

  -- `findOneAndUpdate({ _id, status: { $in: [QUEUED, PROCESSING] } }, …, { new: true })`
  unfoldable pub claim : String → IngestDb S → Result (Option IngestEvent) × IngestDb S
  claim id d = elim (S.ingest_events.get id d.ingest_events) [
    | none ↦ (ok none, d)
    | some e ↦
        if is_claimable e
        then (
          ok (some (claimed e)),
          record d { ingest_events = S.ingest_events.put id (claimed e) d.ingest_events },
        )
        else (ok none, d)
  ]

  unfoldable pub find_event : String → IngestDb S → Result (Option IngestEvent) × IngestDb S
  find_event id d = (ok (S.ingest_events.get id d.ingest_events), d)

  -- `IngestEventModel.updateOne({ _id }, …)`
  unfoldable pub update_event :
      String → (IngestEvent → IngestEvent) → IngestDb S → Result (Unit {0}) × IngestDb S
  update_event id f d = elim (S.ingest_events.get id d.ingest_events) [
    | none ↦ (ok tt, d)
    | some e ↦ (ok tt, record d { ingest_events = S.ingest_events.put id (f e) d.ingest_events })
  ]

  unfoldable pub find_record : String → IngestDb S → Result (Option IdempotencyRecord) × IngestDb S
  find_record event_id d =
      (ok (S.idempotency_records.get (event_id, "ingest_event") d.idempotency_records), d)

  -- `IdempotencyRecordModel.create(…)` under the unique index.
  unfoldable pub create_record : IdempotencyRecord → IngestDb S → Result (Unit {0}) × IngestDb S
  create_record r d =
      elim (S.idempotency_records.get (r.points_idempotency_key, r.event_scope)
        d.idempotency_records) [
          | some old ↦ (err (duplicate_key "pointsIdempotencyKey,eventScope"), d)
          | none ↦ (
            ok tt,
            record d {
              idempotency_records =
                  S.idempotency_records.put (r.points_idempotency_key, r.event_scope) r
                    d.idempotency_records;
            },
          )
        ]

  -- `DLQEventModel.create(…)`: the schema requires an `eventId`, and its index is unique.
  unfoldable pub create_dlq : DlqEvent → IngestDb S → Result (Unit {0}) × IngestDb S
  create_dlq x d =
      if is_empty x.event_id
      then (err (validation_failed "eventId"), d)
      else elim (S.dlq_events.get x.event_id d.dlq_events) [
        | some old ↦ (err (duplicate_key "eventId"), d)
        | none ↦ (ok tt, record d { dlq_events = S.dlq_events.put x.event_id x d.dlq_events })
      ]

  -- `find(query).sort({ movedToDLQAt: 1 })`, and the limit if there is one.
  unfoldable pub find_dlq :
      (DlqEvent → Bool) → Option ℕ → IngestDb S → Result (List DlqEvent) × IngestDb S
  find_dlq p limit d =
      let sorted = sort_by (λ x. pos x.moved_to_dlq_at) (S.dlq_events.find p d.dlq_events) in
      (ok (elim limit [ none ↦ sorted | some n ↦ take n sorted ]), d)

  -- `IngestEventModel.findOne({ eventId })`
  unfoldable pub find_by_event_id : String → IngestDb S → Result (Option IngestEvent) × IngestDb S
  find_by_event_id event_id d =
      (ok (first_of (S.ingest_events.find (λ e. str_eq e.event_id event_id) d.ingest_events)), d)

  -- `IngestEventModel.create(…)` under the unique index on `eventId`.
  unfoldable pub create_event : IngestEvent → IngestDb S → Result (Unit {0}) × IngestDb S
  create_event x d =
      if any (λ e. true) (S.ingest_events.find (λ e. str_eq e.event_id x.event_id) d.ingest_events)
      then (err (duplicate_key "eventId"), d)
      else (ok tt, record d { ingest_events = S.ingest_events.put x.id x d.ingest_events })
