-- ===== src/Ingest/Worker/Retries.antt =====
-- The life of an event in ingest-worker/worker.ts whose handler keeps failing.
use red_room_rewards.Prelude.{
  ℕ, zero, suc, ◌+◌, ◌<◌, String, true, ◌≡◌, ◌∙◌, refl, sym, none, some, arith,
}
use mathlib.Core.Path.{subst}
use red_room_rewards.Domain.{Error}
use red_room_rewards.Store.Table.{Table}
use red_room_rewards.Action.{Env, alone}
use red_room_rewards.Ingest.{
  IngestEvent, queued, dlq, DlqEvent, ProcessingResponse, retryable_failure, WorkerConfig,
  IngestStores, IngestDb, JobState, EventHandler, is_due, calculate_next_attempt,
}
use red_room_rewards.Ingest.Steps.{claimed}
use red_room_rewards.Ingest.Worker.{requeued, process_event}
use red_room_rewards.Ingest.Worker.Alone.{
  IsReady, retried_world, dead_world, letter, process_event_retries, process_event_dies,
}

module _ (S : IngestStores) (cfg : WorkerConfig) (message_of : Error → String)
    (handlers : Table String (EventHandler S)) (e : Env (IngestDb S)) where
  -- The state after `n` attempts at the event.
  unfoldable pub after_attempts : ℕ → String → JobState S → JobState S
  after_attempts zero id w = w
  after_attempts (suc n) id w =
      after_attempts n id (process_event S cfg message_of handlers id (alone e) w).1

  -- The event waits in the queue for its next attempt, for any batch at any time, and has no dead
  -- letter.
  pub record Waits (x : IngestEvent) (n : ℕ) (d : IngestDb S) : Type 0 where
    pub event : IngestEvent
    pub stored : S.ingest_events.get x.id d.ingest_events ≡ some event
    pub is_in_queue : event.status ≡ queued
    pub counts : event.attempts ≡ n
    pub always_due : (now : ℕ) → is_due now event ≡ true
    pub no_letter : S.dlq_events.get x.event_id d.dlq_events ≡ none

  -- The event has left the queue, and a dead letter has what is needed to replay it.
  pub record IsDead (x : IngestEvent) (n : ℕ) (d : IngestDb S) : Type 0 where
    pub event : IngestEvent
    pub stored : S.ingest_events.get x.id d.ingest_events ≡ some event
    pub is_dead : event.status ≡ dlq
    pub counts : event.attempts ≡ n
    pub dead_letter : DlqEvent
    pub lettered : S.dlq_events.get x.event_id d.dlq_events ≡ some dead_letter
    pub same_type : dead_letter.event_type ≡ x.event_type
    pub same_payload : dead_letter.payload_snapshot ≡ x.payload_snapshot
    pub same_replayable : dead_letter.replayable ≡ x.replayable
    pub letter_counts : dead_letter.attempts ≡ n

  module _ (r : ProcessingResponse) (fails : r.result ≡ retryable_failure) where
    abbrev pub Ready : IngestEvent → JobState S → Type 0
    Ready x w = IsReady S cfg message_of handlers e x w r

    -- The event as a retry puts it back.
    abbrev again : IngestEvent → JobState S → IngestEvent
    again x w =
        let now = e.now (suc (suc w.clock)) in
        requeued (calculate_next_attempt cfg now (suc x.attempts)) r.error_code now (claimed x)

    abbrev retried : IngestEvent → JobState S → JobState S
    retried x w = retried_world S cfg message_of handlers e x w r

    again_stored :
        (x : IngestEvent) (w : JobState S)
        → S.ingest_events.get x.id (retried x w).db.ingest_events ≡ some (again x w)
    unfolding retried_world
    again_stored x w = S.ingest_events.get-put_self x.id (again x w) _

    again-Ready : (x : IngestEvent) (w : JobState S) → Ready x w → Ready (again x w) (retried x w)
    unfolding retried_world
    again-Ready x w a = record {
      stored = again_stored x w;
      claimable = refl;
      named = a.named;
      unprocessed = a.unprocessed;
      handled = a.handled;
    }

    dead :
        (x : IngestEvent) (w : JobState S)
        → IsDead x (suc x.attempts) (dead_world S cfg message_of handlers e x w r).db
    unfolding dead_world
    dead x w = record {
      event = _;
      stored = S.ingest_events.get-put_self x.id _ _;
      is_dead = refl;
      counts = refl;
      dead_letter = letter S cfg message_of handlers e x w r;
      lettered = S.dlq_events.get-put_self x.event_id _ _;
      same_type = refl;
      same_payload = refl;
      same_replayable = refl;
      letter_counts = refl;
    }

    Waits-after :
        (n : ℕ) (x : IngestEvent) (w : JobState S)
        → Ready x w
        → S.dlq_events.get x.event_id w.db.dlq_events ≡ none
        → suc n + x.attempts < cfg.max_retry_attempts
        → Waits x (suc n + x.attempts) (after_attempts (suc n) x.id w).db
    unfolding after_attempts retried_world
    Waits-after zero x w a new lt =
        let run = process_event_retries S cfg message_of handlers e x w r a fails (ground arith) in
        subst (λ v. Waits x (suc 0 + x.attempts) v.1.db) (sym run)
          (record {
            event = again x w;
            stored = again_stored x w;
            is_in_queue = refl;
            counts = omega arith;
            always_due = λ now. refl;
            no_letter = new;
          })
    Waits-after (suc n) x w a new lt =
        let run = process_event_retries S cfg message_of handlers e x w r a fails (ground arith) in
        let ih = Waits-after n (again x w) (retried x w) (again-Ready x w a) new (omega arith) in
        let count : suc n + suc x.attempts ≡ suc (suc n) + x.attempts = omega arith in
        subst (λ v. Waits x (suc (suc n) + x.attempts) (after_attempts (suc n) x.id v.1).db)
          (sym run)
          (record {
            event = ih.event;
            stored = ih.stored;
            is_in_queue = ih.is_in_queue;
            counts = ih.counts ∙ count;
            always_due = ih.always_due;
            no_letter = ih.no_letter;
          })

    dead_after :
        (n : ℕ) (x : IngestEvent) (w : JobState S)
        → Ready x w
        → S.dlq_events.get x.event_id w.db.dlq_events ≡ none
        → suc n + x.attempts ≡ cfg.max_retry_attempts
        → IsDead x cfg.max_retry_attempts (after_attempts (suc n) x.id w).db
    unfolding after_attempts retried_world
    dead_after zero x w a new last =
        let run = process_event_dies S cfg message_of handlers e x w r a fails (ground arith) new in
        let count : suc x.attempts ≡ cfg.max_retry_attempts = omega arith in
        subst (λ v. IsDead x cfg.max_retry_attempts v.1.db) (sym run)
          (subst (λ k. IsDead x k (dead_world S cfg message_of handlers e x w r).db) count
            (dead x w))
    dead_after (suc n) x w a new last =
        let run = process_event_retries S cfg message_of handlers e x w r a fails (ground arith) in
        let ih = dead_after n (again x w) (retried x w) (again-Ready x w a) new (omega arith) in
        subst (λ v. IsDead x cfg.max_retry_attempts (after_attempts (suc n) x.id v.1).db) (sym run)
          (record {
            event = ih.event;
            stored = ih.stored;
            is_dead = ih.is_dead;
            counts = ih.counts;
            dead_letter = ih.dead_letter;
            lettered = ih.lettered;
            same_type = ih.same_type;
            same_payload = ih.same_payload;
            same_replayable = ih.same_replayable;
            letter_counts = ih.letter_counts;
          })

    -- If every attempt at an event is answered by a retryable failure and nothing else interferes, the
    -- event, having no dead letter yet, becomes a dead letter at exactly the attempt that the limit
    -- allows as the last, with its type and payload; after each attempt before that it is back in the
    -- queue, where the next batch takes it at any time, also before the time set for the next attempt.
    pub process_event-dead_letter :
        (n : ℕ) (x : IngestEvent) (w : JobState S)
        → Ready x w
        → S.dlq_events.get x.event_id w.db.dlq_events ≡ none
        → suc n + x.attempts ≡ cfg.max_retry_attempts
        → ((m : ℕ) → m < n → Waits x (suc m + x.attempts) (after_attempts (suc m) x.id w).db)
          × IsDead x cfg.max_retry_attempts (after_attempts (suc n) x.id w).db
    process_event-dead_letter n x w a new last =
        (λ m lt. Waits-after m x w a new (omega arith), dead_after n x w a new last)
