-- ===== src/Ingest/Worker/Undying.antt =====
-- An event in ingest-worker/worker.ts that fails at its last attempt and has a dead letter already, as
-- one that was replayed has.
use red_room_rewards.Prelude.{
  ℕ, zero, suc, ◌+◌, leb, String, is_empty, true, false, ◌≡◌, ◌∙◌, refl, sym, ap, some, arith,
}
use mathlib.Core.Path.{subst}
use red_room_rewards.Domain.{Error, duplicate_key}
use red_room_rewards.Store.Table.{Table}
use red_room_rewards.Action.{Env, err, alone, ◌>>=◌}
use red_room_rewards.Ingest.{
  IngestEvent, processing, DlqEvent, ProcessingResponse, retryable_failure, WorkerConfig,
  IngestStores, IngestDb, JobState, EventHandler,
}
use red_room_rewards.Ingest.Steps.{claimed, find_event, create_dlq}
use red_room_rewards.Ingest.Worker.{
  dlq_event, failed, move_to_dlq, handle_failure, handle_processing_result, try_event,
  process_event,
}
use red_room_rewards.Ingest.Worker.Alone.{
  IsReady, claimed_world, still_there, try_event_answered, failure_handled,
}
use red_room_rewards.Ingest.Worker.Retries.{after_attempts}

module _ (S : IngestStores) (cfg : WorkerConfig) (message_of : Error → String)
    (handlers : Table String (EventHandler S)) (e : Env (IngestDb S)) where
  create_dlq_again :
      (y : DlqEvent) (d : IngestDb S) (old : DlqEvent)
      → is_empty y.event_id ≡ false
      → S.dlq_events.get y.event_id d.dlq_events ≡ some old
      → create_dlq S y d ≡ (err (duplicate_key "eventId"), d)
  unfolding create_dlq
  create_dlq_again y d old named there = rw named (rw (there, create_dlq))

  move_to_dlq_again :
      (x : IngestEvent) (code message : String) (w : JobState S) (old : DlqEvent)
      → is_empty x.event_id ≡ false
      → S.dlq_events.get x.event_id w.db.dlq_events ≡ some old
      → move_to_dlq S cfg message_of x code message (alone e) w
        ≡ (err (duplicate_key "eventId"), record w { clock = suc (suc w.clock) })
  unfolding move_to_dlq ◌>>=◌
  move_to_dlq_again x code message w old named there =
      rw (create_dlq_again (dlq_event x code message (e.now w.clock)) w.db old named there) refl

  module _ (x : IngestEvent) (w : JobState S) (r : ProcessingResponse) (old : DlqEvent)
      (fails : r.result ≡ retryable_failure) (a : IsReady S cfg message_of handlers e x w r)
      (over : leb cfg.max_retry_attempts (suc x.attempts) ≡ true)
      (there : S.dlq_events.get x.event_id w.db.dlq_events ≡ some old) where
    abbrev tried : JobState S
    tried = claimed_world S cfg message_of handlers e x w r

    handle_failure_again :
        (r' : ProcessingResponse) (v : JobState S)
        → v.db.dlq_events ≡ w.db.dlq_events
        → handle_failure S cfg message_of (claimed x) r' (alone e) v
          ≡ (err (duplicate_key "eventId"), record v { clock = suc (suc v.clock) })
    unfolding handle_failure
    handle_failure_again r' v same = rw over (
        move_to_dlq_again (claimed x) _ _ v old a.named
          (ap (S.dlq_events.get x.event_id) same ∙ there))

    -- The event stays claimed, with one more attempt.
    pub undead_world : JobState S
    undead_world = record w {
      clock = suc (suc (suc (suc (suc (suc (suc w.clock))))));
      db = record w.db { ingest_events = S.ingest_events.put x.id (claimed x) w.db.ingest_events };
    }

    try_event_again :
        try_event S cfg message_of handlers x.id (alone e) w
        ≡ (err (duplicate_key "eventId"), record tried { clock = suc (suc tried.clock) })
    unfolding claimed_world
    try_event_again =
        try_event_answered S cfg message_of handlers e x w r a
        ∙ failure_handled S cfg message_of handlers e x w r fails
        ∙ handle_failure_again r tried refl

    pub process_event_undead :
        process_event S cfg message_of handlers x.id (alone e) w
        ≡ (err (duplicate_key "eventId"), undead_world)
    unfolding process_event handle_processing_result find_event claimed_world undead_world ◌>>=◌
    process_event_undead = rw try_event_again (
        rw (still_there S cfg message_of handlers e x w r) (
          handle_failure_again (failed S cfg message_of (duplicate_key "eventId"))
            (record tried { clock = suc (suc (suc tried.clock)) }) refl))

  -- The event is claimed still, and its dead letter is the old one.
  pub record IsStuck (x : IngestEvent) (old : DlqEvent) (n : ℕ) (d : IngestDb S) : Type 0 where
    pub event : IngestEvent
    pub stored : S.ingest_events.get x.id d.ingest_events ≡ some event
    pub in_process : event.status ≡ processing
    pub counts : event.attempts ≡ n
    pub same_time : event.next_attempt_at ≡ x.next_attempt_at
    pub same_letter : S.dlq_events.get x.event_id d.dlq_events ≡ some old

  module _ (r : ProcessingResponse) (old : DlqEvent) (fails : r.result ≡ retryable_failure) where
    -- A replayed event, which has its old dead letter, is never given up: if each attempt fails
    -- and nothing else interferes, then after the last attempt that the limit allows, and after any
    -- number of attempts more, it is still in process, with all of the attempts counted, and nothing
    -- of them is recorded in the dead letter.
    pub process_event-undying :
        (n : ℕ) (x : IngestEvent) (w : JobState S)
        → IsReady S cfg message_of handlers e x w r
        → leb cfg.max_retry_attempts (suc x.attempts) ≡ true
        → S.dlq_events.get x.event_id w.db.dlq_events ≡ some old
        → IsStuck x old
            (suc n + x.attempts)
            (after_attempts S cfg message_of handlers e (suc n) x.id w).db
    unfolding after_attempts undead_world
    process_event-undying zero x w a over there =
        let run = process_event_undead x w r old fails a over there in
        subst (λ v. IsStuck x old (suc 0 + x.attempts) v.1.db) (sym run)
          (record {
            event = claimed x;
            stored = S.ingest_events.get-put_self x.id (claimed x) w.db.ingest_events;
            in_process = refl;
            counts = omega arith;
            same_time = refl;
            same_letter = there;
          })
    process_event-undying (suc n) x w a over there =
        let run = process_event_undead x w r old fails a over there in
        let w' = undead_world x w r old fails a over there in
        let next : IsReady S cfg message_of handlers e (claimed x) w' r = record {
          stored = S.ingest_events.get-put_self x.id (claimed x) w.db.ingest_events;
          claimable = refl;
          named = a.named;
          unprocessed = a.unprocessed;
          handled = a.handled;
        } in
        let ih = process_event-undying n (claimed x) w' next (ground arith) there in
        let count : suc n + suc x.attempts ≡ suc (suc n) + x.attempts = omega arith in
        subst
          (λ v.
            IsStuck x old (suc (suc n) + x.attempts)
              (after_attempts S cfg message_of handlers e (suc n) x.id v.1).db)
          (sym run)
          (record {
            event = ih.event;
            stored = ih.stored;
            in_process = ih.in_process;
            counts = ih.counts ∙ count;
            same_time = ih.same_time;
            same_letter = ih.same_letter;
          })
