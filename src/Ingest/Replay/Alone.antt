-- ===== src/Ingest/Replay/Alone.antt =====
-- One letter in `replay` of ingest-worker/replay.ts when nothing else changes the collections.
use red_room_rewards.Prelude.{
  suc, String, str_eq, true, ◌≡◌, refl, ap, leb, List, [], ◌∷◌, none, some,
}
use red_room_rewards.Domain.{Error}
use red_room_rewards.Store.Table.{Table}
use red_room_rewards.Action.{Env, Result, ok, alone, ◌>>=◌}
use red_room_rewards.Ingest.{
  ProcessingResponse, queued, retryable_failure, WorkerConfig, EventHandler, IngestEvent, DlqEvent,
  IngestStores, IngestDb, JobState,
}
use red_room_rewards.Ingest.Steps.{claimed, find_record, find_by_event_id}
use red_room_rewards.Ingest.Worker.{dead, process_event}
use red_room_rewards.Ingest.Worker.Alone.{
  update_event_found, IsReady, last_code, letter, dead_world, process_event_dies,
}
use red_room_rewards.Ingest.Replay.{restarted, replayed, check_idempotency, requeue, replay_event}

module _ (S : IngestStores) (e : Env (IngestDb S)) where
  -- What a replay makes of an event that is there.
  restarted_world : IngestEvent → JobState S → JobState S
  restarted_world y w = record w {
    clock = suc (suc (suc (suc w.clock)));
    db = record w.db {
      ingest_events =
          S.ingest_events.put y.id (restarted (e.now (suc (suc w.clock))) y) w.db.ingest_events;
    };
  }

  replay_event_restarts :
      (z : DlqEvent) (y : IngestEvent) (rest : List IngestEvent) (w : JobState S)
      → S.idempotency_records.get (z.event_id, "ingest_event") w.db.idempotency_records ≡ none
      → S.ingest_events.find (λ x. str_eq x.event_id z.event_id) w.db.ingest_events ≡ y ∷ rest
      → S.ingest_events.get y.id w.db.ingest_events ≡ some y
      → replay_event S z (alone e) w ≡ (ok replayed, restarted_world y w)
  unfolding replay_event check_idempotency find_record requeue find_by_event_id restarted_world
      ◌>>=◌
  replay_event_restarts z y rest w unprocessed there stored = rw unprocessed (
      rw there
        (rw (update_event_found S y.id (restarted (e.now (suc (suc w.clock)))) y w.db stored) refl))

module _ (S : IngestStores) (cfg : WorkerConfig) (message_of : Error → String)
    (handlers : Table String (EventHandler S)) (e : Env (IngestDb S)) (x : IngestEvent)
    (w : JobState S) (r : ProcessingResponse) where
  abbrev pub last_try : JobState S
  last_try = (process_event S cfg message_of handlers x.id (alone e) w).1

  abbrev pub in_dlq : IngestEvent
  in_dlq =
      dead (last_code S cfg message_of handlers e x w r) (e.now (suc (suc w.clock))) (claimed x)

  -- An event whose last attempt fails is moved to the dead letters, and the replay of its letter, while
  -- nothing else interferes, puts it back as it was but queued, with no attempts and no error, due at
  -- the time of the replay; the letter stays. The search by the event's id, which is unique, must find the event.
  pub dead_letter-replay :
      IsReady S cfg message_of handlers e x w r
      → r.result ≡ retryable_failure
      → leb cfg.max_retry_attempts (suc x.attempts) ≡ true
      → S.dlq_events.get x.event_id w.db.dlq_events ≡ none
      → S.ingest_events.find (λ y. str_eq y.event_id x.event_id) last_try.db.ingest_events
        ≡ in_dlq ∷ []
      → (z : DlqEvent) × (S.dlq_events.get x.event_id last_try.db.dlq_events ≡ some z)
        × ((replay_event S z (alone e) last_try).0 ≡ ok replayed)
        × (S.ingest_events.get x.id (replay_event S z (alone e) last_try).1.db.ingest_events
            ≡ some (record x {
              status = queued;
              attempts = 0;
              next_attempt_at = some (e.now (suc (suc last_try.clock)));
              last_error_code = none;
              last_error_at = none;
            }))
        × (S.dlq_events.get x.event_id (replay_event S z (alone e) last_try).1.db.dlq_events
            ≡ some z)
  unfolding dead_world restarted_world
  dead_letter-replay a fails over new there =
      let run_dies = process_event_dies S cfg message_of handlers e x w r a fails over new in
      let v = dead_world S cfg message_of handlers e x w r in
      let died : last_try ≡ v = ap (λ (p : Result (Unit {0}) × JobState S). p.1) run_dies in
      let z = letter S cfg message_of handlers e x w r in
      let there' : S.ingest_events.find (λ y. str_eq y.event_id x.event_id) v.db.ingest_events
          ≡ in_dlq ∷ [] =
        rw died at there in
      let run =
        replay_event_restarts S e z in_dlq [] v a.unprocessed there'
          (S.ingest_events.get-put_self x.id in_dlq _) in
      (
        z,
        rw died (S.dlq_events.get-put_self x.event_id z _),
        rw died (rw run refl),
        rw died (rw run (S.ingest_events.get-put_self x.id _ _)),
        rw died (rw run (S.dlq_events.get-put_self x.event_id z _)),
      )
