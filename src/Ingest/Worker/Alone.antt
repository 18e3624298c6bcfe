-- ===== src/Ingest/Worker/Alone.antt =====
-- One event in ingest-worker/worker.ts when nothing else changes the collections.
use red_room_rewards.Prelude.{
  ℕ, suc, leb, String, is_empty, true, false, ◌≡◌, ◌∙◌, refl, ap, Option, none, some,
}
use red_room_rewards.Domain.{Error}
use red_room_rewards.Store.Table.{Table}
use red_room_rewards.Action.{Env, ok, alone, ◌>>=◌}
use red_room_rewards.Ingest.{
  IngestEvent, DlqEvent, ProcessingResponse, retryable_failure, WorkerConfig, IngestStores,
  IngestDb, JobState, EventHandler, calculate_next_attempt,
}
use red_room_rewards.Ingest.Steps.{
  is_claimable, claimed, claim, update_event, find_record, create_dlq,
}
use red_room_rewards.Ingest.Worker.{
  dlq_event, dead, requeued, get_handler, handle_failure, handle_result, handle_processing_result,
  run_handler, unless_processed, check_idempotency, process_claimed, try_event, process_event,
  or_code, context_of,
}

module _ (S : IngestStores) where
  pub update_event_found :
      (id : String) (f : IngestEvent → IngestEvent) (x : IngestEvent) (d : IngestDb S)
      → S.ingest_events.get id d.ingest_events ≡ some x
      → update_event S id f d
        ≡ (ok tt, record d { ingest_events = S.ingest_events.put id (f x) d.ingest_events })
  unfolding update_event
  update_event_found id f x d h = rw (h, update_event)

  pub claim_found :
      (id : String) (x : IngestEvent) (d : IngestDb S)
      → S.ingest_events.get id d.ingest_events ≡ some x
      → is_claimable x ≡ true
      → claim S id d ≡ (
        ok (some (claimed x)),
        record d { ingest_events = S.ingest_events.put id (claimed x) d.ingest_events },
      )
  unfolding claim
  claim_found id x d h c = rw (h, claim) (rw c refl)

  pub create_dlq_new :
      (event_id : String) (x : IngestEvent) (code message : String) (now : ℕ) (d : IngestDb S)
      → is_empty x.event_id ≡ false
      → S.dlq_events.get x.event_id d.dlq_events ≡ none
      → create_dlq S (dlq_event x code message now) d ≡ (
        ok tt,
        record d {
          dlq_events = S.dlq_events.put x.event_id (dlq_event x code message now) d.dlq_events;
        },
      )
  unfolding create_dlq
  create_dlq_new event_id x code message now d named new = rw named (rw (new, create_dlq))

module _ (S : IngestStores) (cfg : WorkerConfig) (message_of : Error → String)
    (handlers : Table String (EventHandler S)) (e : Env (IngestDb S)) where
  -- Every attempt at an event of the type is answered so, and leaves the collections alone.
  pub record Responds (type : Option String) (r : ProcessingResponse) : Type 0 where
    pub always :
        (x : IngestEvent) (w : JobState S)
        → get_handler S cfg message_of handlers type (context_of x) (alone e) w ≡ (ok r, w)

  module _ (x : IngestEvent) (w : JobState S) (r : ProcessingResponse) where
    -- An event that can be processed.
    pub record IsReady : Type 0 where
      pub stored : S.ingest_events.get x.id w.db.ingest_events ≡ some x
      pub claimable : is_claimable x ≡ true
      pub named : is_empty x.event_id ≡ false
      pub unprocessed :
          S.idempotency_records.get (x.event_id, "ingest_event") w.db.idempotency_records ≡ none
      pub handled : Responds x.event_type r

    unfoldable pub claimed_world : JobState S
    claimed_world = record w {
      clock = suc (suc w.clock);
      db = record w.db { ingest_events = S.ingest_events.put x.id (claimed x) w.db.ingest_events };
    }

    -- Up to the handler's answer.
    pub try_event_answered :
        IsReady
        → try_event S cfg message_of handlers x.id (alone e) w
          ≡ handle_processing_result S cfg message_of (claimed x) r (alone e) claimed_world
    unfolding try_event process_claimed check_idempotency find_record unless_processed run_handler
        claimed_world ◌>>=◌
    try_event_answered a =
        rw (claim_found S x.id x w.db a.stored a.claimable)
          (rw a.named (rw a.unprocessed (rw (a.handled.always (claimed x) claimed_world) refl)))

    process_event_tried :
        (w' : JobState S)
        → try_event S cfg message_of handlers x.id (alone e) w ≡ (ok tt, w')
        → process_event S cfg message_of handlers x.id (alone e) w ≡ (ok tt, w')
    unfolding process_event ◌>>=◌
    process_event_tried w' h = rw h refl

    -- What an attempt leaves that is to be repeated.
    unfoldable pub retried_world : JobState S
    retried_world =
        let now = e.now (suc (suc w.clock)) in
        record w {
          clock = suc (suc (suc (suc w.clock)));
          db = record w.db {
            ingest_events =
                S.ingest_events.put x.id
                  (requeued (calculate_next_attempt cfg now (suc x.attempts)) r.error_code now
                    (claimed x))
                  (S.ingest_events.put x.id (claimed x) w.db.ingest_events);
          };
        }

    pub failure_handled :
        r.result ≡ retryable_failure
        → handle_processing_result S cfg message_of (claimed x) r (alone e) claimed_world
          ≡ handle_failure S cfg message_of (claimed x) r (alone e) claimed_world
    unfolding handle_processing_result
    failure_handled fails =
        ap (λ k. handle_result S cfg message_of k (claimed x) r (alone e) claimed_world) fails

    pub still_there : S.ingest_events.get x.id claimed_world.db.ingest_events ≡ some (claimed x)
    unfolding claimed_world
    still_there = S.ingest_events.get-put_self x.id (claimed x) w.db.ingest_events

    handle_failure_below :
        leb cfg.max_retry_attempts (suc x.attempts) ≡ false
        → handle_failure S cfg message_of (claimed x) r (alone e) claimed_world
          ≡ (ok tt, retried_world)
    unfolding handle_failure claimed_world retried_world ◌>>=◌
    handle_failure_below below =
        rw below (rw (update_event_found S x.id _ (claimed x) claimed_world.db still_there) refl)

    -- A failed attempt below the limit puts the event back into the queue.
    pub process_event_retries :
        IsReady
        → r.result ≡ retryable_failure
        → leb cfg.max_retry_attempts (suc x.attempts) ≡ false
        → process_event S cfg message_of handlers x.id (alone e) w ≡ (ok tt, retried_world)
    process_event_retries a fails below =
        process_event_tried retried_world
          (try_event_answered a ∙ failure_handled fails ∙ handle_failure_below below)

    -- What the last attempt leaves.
    abbrev pub last_code : String
    last_code = or_code r.error_code "MAX_RETRIES_EXCEEDED"

    abbrev pub last_message : String
    last_message = or_code r.error_message "Maximum retry attempts exceeded"

    abbrev pub letter : DlqEvent
    letter = dlq_event (claimed x) last_code last_message (e.now (suc (suc w.clock)))

    lettered : IngestDb S
    unfolding claimed_world
    lettered = record claimed_world.db {
      dlq_events = S.dlq_events.put x.event_id letter w.db.dlq_events;
    }

    unfoldable pub dead_world : JobState S
    dead_world = record w {
      clock = suc (suc (suc (suc (suc w.clock))));
      db = record w.db {
        ingest_events =
            S.ingest_events.put x.id (dead last_code (e.now (suc (suc w.clock))) (claimed x))
              (S.ingest_events.put x.id (claimed x) w.db.ingest_events);
        dlq_events = S.dlq_events.put x.event_id letter w.db.dlq_events;
      };
    }

    handle_failure_over :
        leb cfg.max_retry_attempts (suc x.attempts) ≡ true
        → is_empty x.event_id ≡ false
        → S.dlq_events.get x.event_id w.db.dlq_events ≡ none
        → handle_failure S cfg message_of (claimed x) r (alone e) claimed_world
          ≡ (ok tt, dead_world)
    unfolding handle_failure claimed_world lettered dead_world ◌>>=◌
    handle_failure_over over named new = rw over (
        rw
          (create_dlq_new S x.event_id (claimed x) last_code last_message
            (e.now (suc (suc w.clock))) claimed_world.db named new)
          (rw
            (update_event_found S x.id (dead last_code (e.now (suc (suc w.clock)))) (claimed x)
              lettered still_there)
            refl))

    -- A failed attempt at the limit moves the event to the dead letters.
    pub process_event_dies :
        IsReady
        → r.result ≡ retryable_failure
        → leb cfg.max_retry_attempts (suc x.attempts) ≡ true
        → S.dlq_events.get x.event_id w.db.dlq_events ≡ none
        → process_event S cfg message_of handlers x.id (alone e) w ≡ (ok tt, dead_world)
    process_event_dies a fails over new =
        process_event_tried dead_world
          (try_event_answered a ∙ failure_handled fails ∙ handle_failure_over over a.named new)
