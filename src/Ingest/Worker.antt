-- ===== src/Ingest/Worker.antt =====
-- The class `IngestWorker` of ingest-worker/worker.ts: a batch, the processing of one event and what
-- becomes of its result. The polling loop, which calls `process_next_batch` again and again, and the
-- alerts and counters are left out.
pub mod Alone
pub mod Retries
pub mod Undying
use red_room_rewards.Prelude.{
  ℕ, String, is_empty, Bool, true, false, List, [], ◌∷◌, Option, none, some, or_else, leb,
  if◌then◌else◌,
}
use red_room_rewards.Domain.{Error, duplicate_key}
use red_room_rewards.Store.Docs.{IdempotencyRecord}
use red_room_rewards.Store.Table.{Table, get, by_text}
use red_room_rewards.Action.{
  Result, ok, err, pure, throw, atomically, attempt, ◌>>=◌, ◌>>◌, current_time,
}
use red_room_rewards.Ingest.{
  IngestEvent, queued, processed, dlq, DlqEvent, ProcessingResult, success, retryable_failure,
  non_retryable_failure, EventProcessingContext, ProcessingResponse, WorkerConfig, IngestStores,
  Job, EventHandler, calculate_next_attempt,
}
use red_room_rewards.Ingest.Steps.{
  found, find_due, claim, find_event, update_event, find_record, create_record, create_dlq,
}

-- `response.errorCode || code`
abbrev pub or_code : Option String → String → String
or_code none code = code
or_code (some c) code = if is_empty c then code else c

abbrev pub dlq_event : IngestEvent → String → String → ℕ → DlqEvent
dlq_event e code message now = record {
  event_id = e.event_id;
  event_type = e.event_type;
  original_received_at = e.received_at;
  moved_to_dlq_at = now;
  attempts = e.attempts;
  last_error_code = code;
  last_error_message = message;
  last_error_at = now;
  payload_snapshot = e.payload_snapshot;
  replayable = e.replayable;
}

abbrev pub dead : String → ℕ → IngestEvent → IngestEvent
dead code now e = record e { status = dlq; last_error_code = some code; last_error_at = some now }

abbrev pub done : IngestEvent → IngestEvent
done e = record e { status = processed }

-- The update that schedules a retry.
abbrev pub requeued : ℕ → Option String → ℕ → IngestEvent → IngestEvent
requeued next code now e = record e {
  status = queued;
  next_attempt_at = some next;
  last_error_code = code;
  last_error_at = some now;
}

abbrev pub processed_record : String → IdempotencyRecord
processed_record event_id = record {
  points_idempotency_key = event_id;
  event_scope = "ingest_event";
  result_hash = "processed";
  stored_result = "processed";
  expires_at = none;
  retention_until = none;
  tenant_id = none;
}

abbrev pub succeeded : ProcessingResponse
succeeded = record { result = success; error_code = none; error_message = none }

abbrev pub context_of : IngestEvent → EventProcessingContext
context_of e = record {
  event_id = e.event_id;
  event_type = e.event_type;
  payload = e.payload_snapshot;
  attempts = e.attempts;
}

module _ (S : IngestStores) (cfg : WorkerConfig) (message_of : Error → String) where
  abbrev pub default_handler : EventHandler S
  default_handler c = pure succeeded

  abbrev pub or_default_handler : Option (EventHandler S) → EventHandler S
  or_default_handler none = default_handler
  or_default_handler (some h) = h

  unfoldable pub get_handler : Table String (EventHandler S) → Option String → EventHandler S
  get_handler handlers none = default_handler
  get_handler handlers (some type) =
      if is_empty type then default_handler else or_default_handler (get by_text type handlers)

  unfoldable pub move_to_dlq : IngestEvent → String → String → Job S (Unit {0})
  move_to_dlq e code message = do
    now ← current_time
    atomically (create_dlq S (dlq_event e code message now))
    atomically (update_event S e.id (dead code now))

  unfoldable pub check_idempotency : String → Job S Bool
  check_idempotency event_id = do r ← atomically (find_record S event_id); pure (found r)

  -- The `catch`: a duplicate key is ignored.
  abbrev pub ignoring_duplicate : Result (Unit {0}) → Job S (Unit {0})
  ignoring_duplicate (ok _) = pure tt
  ignoring_duplicate (err (duplicate_key path)) = pure tt
  ignoring_duplicate (err x) = throw x

  unfoldable pub store_idempotency : String → Job S (Unit {0})
  store_idempotency event_id = do
    r ← attempt (atomically (create_record S (processed_record event_id)))
    ignoring_duplicate r

  unfoldable pub schedule_retry : IngestEvent → Option String → Job S (Unit {0})
  schedule_retry e code = do
    now ← current_time
    atomically (update_event S e.id (requeued (calculate_next_attempt cfg now e.attempts) code now))

  unfoldable pub handle_failure : IngestEvent → ProcessingResponse → Job S (Unit {0})
  unfolding move_to_dlq schedule_retry
  handle_failure e r =
      if leb cfg.max_retry_attempts e.attempts
      then move_to_dlq e (or_code r.error_code "MAX_RETRIES_EXCEEDED")
          (or_code r.error_message "Maximum retry attempts exceeded")
      else schedule_retry e r.error_code

  abbrev pub handle_result : ProcessingResult → IngestEvent → ProcessingResponse → Job S (Unit {0})
  handle_result success e r = do atomically (update_event S e.id done); store_idempotency e.event_id
  handle_result retryable_failure e r = handle_failure e r
  handle_result non_retryable_failure e r =
      move_to_dlq e (or_code r.error_code "NON_RETRYABLE_ERROR")
        (or_code r.error_message "Non-retryable failure")

  unfoldable pub handle_processing_result : IngestEvent → ProcessingResponse → Job S (Unit {0})
  handle_processing_result e r = handle_result r.result e r

  unfoldable pub run_handler : Table String (EventHandler S) → IngestEvent → Job S (Unit {0})
  unfolding get_handler handle_processing_result
  run_handler handlers e = do
    response ← get_handler handlers e.event_type (context_of e)
    handle_processing_result e response

  unfoldable pub unless_processed :
      Table String (EventHandler S) → IngestEvent → Bool → Job S (Unit {0})
  unless_processed handlers e true = atomically (update_event S e.id done)
  unless_processed handlers e false = run_handler handlers e

  unfoldable pub process_claimed :
      Table String (EventHandler S) → Option IngestEvent → Job S (Unit {0})
  unfolding check_idempotency unless_processed
  process_claimed handlers none = pure tt
  process_claimed handlers (some e) =
      if is_empty e.event_id
      then move_to_dlq e "MISSING_EVENT_ID" "Event ID is required"
      else do seen ← check_idempotency e.event_id; unless_processed handlers e seen

  -- The `try` of `processEvent`.
  unfoldable pub try_event : Table String (EventHandler S) → String → Job S (Unit {0})
  unfolding process_claimed
  try_event handlers id = do claimed ← atomically (claim S id); process_claimed handlers claimed

  abbrev pub failed : Error → ProcessingResponse
  failed x = record {
    result = retryable_failure;
    error_code = some "PROCESSING_ERROR";
    error_message = some (message_of x);
  }

  abbrev pub retry_found : Error → Option IngestEvent → Job S (Unit {0})
  retry_found x none = pure tt
  retry_found x (some e) = handle_processing_result e (failed x)

  -- Its `catch`.
  abbrev pub after_try : String → Result (Unit {0}) → Job S (Unit {0})
  after_try id (ok _) = pure tt
  after_try id (err x) = do e ← atomically (find_event S id); retry_found x e

  unfoldable pub process_event : Table String (EventHandler S) → String → Job S (Unit {0})
  unfolding try_event
  process_event handlers id = do r ← attempt (try_event handlers id); after_try id r

  -- `Promise.allSettled`, one event after another; what other events do in between is the
  -- environment's.
  unfoldable pub process_each : Table String (EventHandler S) → List IngestEvent → Job S (Unit {0})
  process_each handlers [] = pure tt
  process_each handlers (e ∷ es) = do
    r ← attempt (process_event handlers e.id)
    process_each handlers es

  unfoldable pub process_next_batch : Table String (EventHandler S) → Job S (Unit {0})
  process_next_batch handlers = do
    now ← current_time
    due ← atomically (find_due S now cfg.max_concurrent_jobs)
    process_each handlers due
