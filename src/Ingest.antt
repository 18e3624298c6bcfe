-- ===== src/Ingest.antt =====
-- The ingest worker: ingest-worker/types.ts and the documents of db/models/ingest-event.model.ts and
-- db/models/dlq-event.model.ts; its children are worker.ts and replay.ts. Payloads are texts, since
-- the worker only copies them. The fields of an event that only the HTTP controller writes are left
-- out.
pub mod Steps
pub mod Worker
pub mod Replay
mod Tests
use red_room_rewards.Prelude.{
  or_default, ℕ, suc, ◌+◌, ◌-◌, ◌*◌, ◌^◌, ◌/◌, min, ltb, leb, ◌==◌, String, Bool, true, false, ◌&&◌,
  ◌||◌, Option, none, some, if◌then◌else◌,
}
use red_room_rewards.Store.Docs.{IdempotencyRecord}
use red_room_rewards.Store.Interface.{DocStore}
use red_room_rewards.Action.{Action, World}

pub data IngestEventStatus : Type 0 where
  queued processing processed rejected dlq : IngestEventStatus

pub record IngestEvent : Type 0 where
  pub id : String
  pub event_id : String
  pub event_type : Option String
  pub received_at : ℕ
  pub status : IngestEventStatus
  pub attempts : ℕ
  pub last_error_code : Option String
  pub last_error_at : Option ℕ
  pub payload_snapshot : Option String
  pub replayable : Bool
  pub next_attempt_at : Option ℕ

pub record DlqEvent : Type 0 where
  pub event_id : String
  pub event_type : Option String
  pub original_received_at : ℕ
  pub moved_to_dlq_at : ℕ
  pub attempts : ℕ
  pub last_error_code : String
  pub last_error_message : String
  pub last_error_at : ℕ
  pub payload_snapshot : Option String
  pub replayable : Bool

pub data ProcessingResult : Type 0 where
  success retryable_failure non_retryable_failure : ProcessingResult

pub record EventProcessingContext : Type 0 where
  pub event_id : String
  pub event_type : Option String
  pub payload : Option String
  pub attempts : ℕ

pub record ProcessingResponse : Type 0 where
  pub result : ProcessingResult
  pub error_code : Option String
  pub error_message : Option String

pub record WorkerConfig : Type 0 where
  pub max_concurrent_jobs : ℕ
  pub max_retry_attempts : ℕ
  pub initial_retry_delay_ms : ℕ
  pub max_retry_delay_ms : ℕ
  pub retry_backoff_multiplier : ℕ

-- The constructor, from the options that are given.
unfoldable pub worker_config : Option ℕ → Option ℕ → Option ℕ → Option ℕ → Option ℕ → WorkerConfig
worker_config jobs retries first_delay longest_delay multiplier = record {
  max_concurrent_jobs = or_default jobs 10;
  max_retry_attempts = or_default retries 5;
  initial_retry_delay_ms = or_default first_delay 1000;
  max_retry_delay_ms = or_default longest_delay 60000;
  retry_backoff_multiplier = or_default multiplier 2;
}

-- The three collections that the worker uses. Ingest events are found by their `_id`.
pub record IngestStores : Type 1 where
  pub ingest_events : DocStore String IngestEvent
  pub dlq_events : DocStore String DlqEvent
  pub idempotency_records : DocStore (String × String) IdempotencyRecord

pub record IngestDb (S : IngestStores) : Type 0 where
  pub ingest_events : S.ingest_events.Docs
  pub dlq_events : S.dlq_events.Docs
  pub idempotency_records : S.idempotency_records.Docs

-- The methods publish nothing.
abbrev pub Job : IngestStores → Type 0 → Type 0
Job S A = Action (IngestDb S) (Unit {0}) A

abbrev pub JobState : IngestStores → Type 0
JobState S = World (IngestDb S) (Unit {0})

-- A handler is the client's code; it may throw.
abbrev pub EventHandler : IngestStores → Type 0
EventHandler S = EventProcessingContext → Job S ProcessingResponse

abbrev pub is_queued : IngestEventStatus → Bool
is_queued queued = true
is_queued _ = false

abbrev pub is_processing : IngestEventStatus → Bool
is_processing processing = true
is_processing _ = false

-- `{ nextAttemptAt: { $lte: now } }`, which a document without the field does not meet.
abbrev pub has_come : Option ℕ → ℕ → Bool
has_come none now = false
has_come (some t) now = leb t now

-- The filter of `processNextBatch`.
abbrev pub is_due : ℕ → IngestEvent → Bool
is_due now e = is_queued e.status || is_processing e.status && has_come e.next_attempt_at now

-- The delay of `calculateNextAttempt`. With no attempts the power is one over the multiplier.
unfoldable pub retry_delay : WorkerConfig → ℕ → ℕ
retry_delay cfg attempts =
    min
      (if attempts == 0
        then cfg.initial_retry_delay_ms / cfg.retry_backoff_multiplier
        else cfg.initial_retry_delay_ms * cfg.retry_backoff_multiplier ^ (attempts - 1))
      cfg.max_retry_delay_ms

unfoldable pub calculate_next_attempt : WorkerConfig → ℕ → ℕ → ℕ
unfolding retry_delay
calculate_next_attempt cfg now attempts = now + retry_delay cfg attempts
