-- ===== src/Ingest/Replay.antt =====
-- The class `ReplayController` of ingest-worker/replay.ts: the replay of dead letters. The statistics,
-- which the driver aggregates, and the metrics are left out.
pub mod Counts
pub mod Alone
use red_room_rewards.Prelude.{
  asks_for, from_date, to_date, ℕ, suc, leb, ltb, ◌==◌, String, str_eq, is_empty, Bool, true, false,
  ◌&&◌, List, [], ◌∷◌, Option, none, some, if◌then◌else◌,
}
use red_room_rewards.Action.{
  Result, ok, err, pure, atomically, attempt, ◌>>=◌, ◌>>◌, current_time, fresh_id,
}
use red_room_rewards.Ingest.{IngestEvent, queued, DlqEvent, IngestStores, Job}
use red_room_rewards.Ingest.Steps.{
  found, find_record, find_dlq, find_by_event_id, update_event, create_event,
}

pub record ReplayOptions : Type 0 where
  pub event_id : Option String
  pub event_type : Option String
  pub start_date : Option ℕ
  pub end_date : Option ℕ
  pub max_events : Option ℕ

pub record ReplayResult : Type 0 where
  pub total_replayed : ℕ
  pub successful : ℕ
  pub failed : ℕ
  pub skipped : ℕ

abbrev pub nothing_yet : ReplayResult
nothing_yet = record { total_replayed = 0; successful = 0; failed = 0; skipped = 0 }

-- The query that `replay` builds.
unfoldable pub selects : ReplayOptions → DlqEvent → Bool
selects o x =
    asks_for o.event_id (some x.event_id)
    && asks_for o.event_type x.event_type
    && from_date o.start_date x.moved_to_dlq_at
    && to_date o.end_date x.moved_to_dlq_at

-- `if (options.maxEvents)`: zero sets no limit.
abbrev pub limit_of : ReplayOptions → Option ℕ
limit_of o = elim o.max_events [ none ↦ none | some n ↦ if n == 0 then none else some n ]

abbrev pub restarted : ℕ → IngestEvent → IngestEvent
restarted now e = record e {
  status = queued;
  attempts = 0;
  next_attempt_at = some now;
  last_error_code = none;
  last_error_at = none;
}

abbrev pub recreated : String → ℕ → DlqEvent → IngestEvent
recreated id now x = record {
  id = id;
  event_id = x.event_id;
  event_type = x.event_type;
  received_at = now;
  status = queued;
  attempts = 0;
  last_error_code = none;
  last_error_at = none;
  payload_snapshot = x.payload_snapshot;
  replayable = x.replayable;
  next_attempt_at = none;
}

-- How the body of the loop ends, if it does not throw.
pub data Outcome : Type 0 where
  skipped replayed : Outcome

-- The counters after one round of the loop.
abbrev pub counted : Result Outcome → ReplayResult → ReplayResult
counted (ok skipped) r = record r { skipped = suc r.skipped }
counted (ok replayed) r = record r {
  successful = suc r.successful;
  total_replayed = suc r.total_replayed;
}
counted (err x) r = record r { failed = suc r.failed; total_replayed = suc r.total_replayed }

module _ (S : IngestStores) where
  unfoldable pub check_idempotency : String → Job S Bool
  check_idempotency event_id = do r ← atomically (find_record S event_id); pure (found r)

  abbrev pub restart_or_create : DlqEvent → Option IngestEvent → Job S Outcome
  restart_or_create x (some e) = do
    now ← current_time
    atomically (update_event S e.id (restarted now))
    pure replayed
  restart_or_create x none = do
    id ← fresh_id
    now ← current_time
    atomically (create_event S (recreated id now x))
    pure replayed

  unfoldable pub requeue : DlqEvent → Job S Outcome
  requeue x = do existing ← atomically (find_by_event_id S x.event_id); restart_or_create x existing

  abbrev pub unless_processed : DlqEvent → Bool → Job S Outcome
  unless_processed x true = pure skipped
  unless_processed x false = requeue x

  -- The body of the loop.
  unfoldable pub replay_event : DlqEvent → Job S Outcome
  unfolding check_idempotency requeue
  replay_event x = do is_processed ← check_idempotency x.event_id; unless_processed x is_processed

  unfoldable pub replay_each : List DlqEvent → ReplayResult → Job S ReplayResult
  replay_each [] r = pure r
  replay_each (x ∷ xs) r = do outcome ← attempt (replay_event x); replay_each xs (counted outcome r)

  unfoldable pub replay : ReplayOptions → Job S ReplayResult
  replay o = do
    events ← atomically (find_dlq S (selects o) (limit_of o))
    replay_each events nothing_yet

  unfoldable pub replay_by_id : String → Job S Bool
  unfolding replay
  replay_by_id event_id = do
    r ← replay (record {
      event_id = some event_id;
      event_type = none;
      start_date = none;
      end_date = none;
      max_events = some 1;
    })
    pure (ltb 0 r.successful)

  unfoldable pub replay_by_event_type : String → Option ℕ → Job S ReplayResult
  unfolding replay
  replay_by_event_type event_type max_events = replay (record {
    event_id = none;
    event_type = some event_type;
    start_date = none;
    end_date = none;
    max_events = max_events;
  })

  unfoldable pub replay_by_date_range : ℕ → ℕ → Option ℕ → Job S ReplayResult
  unfolding replay
  replay_by_date_range start_date end_date max_events = replay (record {
    event_id = none;
    event_type = none;
    start_date = some start_date;
    end_date = some end_date;
    max_events = max_events;
  })
