-- ===== src/Ingest/Tests.antt =====
-- Runs of ingest-worker/worker.ts and ingest-worker/replay.ts at concrete inputs.
use red_room_rewards.Prelude.{
  suc, ℕ, suc, ◌+◌, ◌<◌, String, str_eq, ◌≡◌, refl, ap, true, List, [], ◌∷◌, none, some, length,
}
use red_room_rewards.Domain.{Error}
use red_room_rewards.Store.Table.{Table, table, by_text, by_pair}
use red_room_rewards.Action.{Env, Result, ok, alone, pure}
use red_room_rewards.Ingest.{
  IngestEvent, queued, DlqEvent, retryable_failure, ProcessingResponse, WorkerConfig, IngestStores,
  IngestDb, JobState, EventHandler,
}
use red_room_rewards.Ingest.Worker.{dlq_event, get_handler, context_of}
use red_room_rewards.Ingest.Worker.Alone.{Responds, IsReady, dead_world, process_event_dies}
use red_room_rewards.Ingest.Worker.Retries.{
  Waits, IsDead, after_attempts, process_event-dead_letter,
}
use red_room_rewards.Ingest.Worker.Undying.{IsStuck, process_event-undying}
use red_room_rewards.Ingest.Replay.{ReplayOptions, ReplayResult, replay, replay_event, replayed}
use red_room_rewards.Ingest.Replay.Counts.{Counts, selected, replay-Counts}
use red_room_rewards.Ingest.Replay.Alone.{dead_letter-replay, last_try, in_dlq}

abbrev stores : IngestStores
stores = record {
  ingest_events = table by_text;
  dlq_events = table by_text;
  idempotency_records = table by_pair;
}

abbrev env : Env (IngestDb stores)
env = record { others = λ n d. d; uuid = λ n. "id"; now = λ n. n; delivers = λ n. true }

abbrev config : WorkerConfig
config = record {
  max_concurrent_jobs = 10;
  max_retry_attempts = 3;
  initial_retry_delay_ms = 1000;
  max_retry_delay_ms = 60000;
  retry_backoff_multiplier = 2;
}

abbrev message : Error → String
message x = "failed"

abbrev busy : ProcessingResponse
busy = record { result = retryable_failure; error_code = some "BUSY"; error_message = none }

-- A handler that is always busy.
abbrev handlers : Table String (EventHandler stores)
handlers = ("tip", λ c. pure busy) ∷ []

abbrev event : IngestEvent
event = record {
  id = "m1";
  event_id = "e1";
  event_type = some "tip";
  received_at = 1;
  status = queued;
  attempts = 0;
  last_error_code = none;
  last_error_at = none;
  payload_snapshot = some "{}";
  replayable = true;
  next_attempt_at = none;
}

abbrev state : List (String × IngestEvent) → List (String × DlqEvent) → JobState stores
state events letters = record {
  clock = 0;
  db = record { ingest_events = events; dlq_events = letters; idempotency_records = [] };
  published = [];
  publish_errors = 0;
}

abbrev start : JobState stores
start = state (("m1", event) ∷ []) []

busy-Responds : Responds stores config message handlers env (some "tip") busy
unfolding get_handler
busy-Responds = record { always = responds }
  where
    responds :
        (x : IngestEvent) (w : JobState stores)
        → get_handler stores config message handlers (some "tip") (context_of x) (alone env) w
          ≡ (ok busy, w)
    responds x w = refl

ready : IsReady stores config message handlers env event start busy
ready = record {
  stored = refl;
  claimable = refl;
  named = refl;
  unprocessed = refl;
  handled = busy-Responds;
}

process_event-dead_letter_example :
    ((m : ℕ)
      → m < 2
      → Waits stores config message handlers env event
          (suc m + 0)
          (after_attempts stores config message handlers env (suc m) "m1" start).db)
    × IsDead stores config message handlers env event 3
        (after_attempts stores config message handlers env 3 "m1" start).db
process_event-dead_letter_example =
    process_event-dead_letter stores config message handlers env busy refl 2 event start ready refl
      refl

-- The event at its last attempt, with a letter of an earlier life.
abbrev tired : IngestEvent
tired = record event { attempts = 2 }

abbrev old_letter : DlqEvent
old_letter = dlq_event event "BUSY" "failed" 5

abbrev replayed_before : JobState stores
replayed_before = state (("m1", tired) ∷ []) (("e1", old_letter) ∷ [])

ready_again : IsReady stores config message handlers env tired replayed_before busy
ready_again = record {
  stored = refl;
  claimable = refl;
  named = refl;
  unprocessed = refl;
  handled = busy-Responds;
}

process_event-undying_example :
    IsStuck stores config message handlers env tired old_letter 12
      (after_attempts stores config message handlers env 10 "m1" replayed_before).db
process_event-undying_example =
    process_event-undying stores config message handlers env busy old_letter refl 9 tired
      replayed_before ready_again refl refl

abbrev all_letters : ReplayOptions
all_letters = record {
  event_id = none;
  event_type = none;
  start_date = none;
  end_date = none;
  max_events = none;
}

replay-Counts_example :
    (r : ReplayResult) × ((replay stores all_letters env replayed_before).0 ≡ ok r)
    × Counts (length (selected stores env all_letters replayed_before)) r
replay-Counts_example = replay-Counts stores env all_letters replayed_before

abbrev last_start : JobState stores
last_start = state (("m1", tired) ∷ []) []

ready_last : IsReady stores config message handlers env tired last_start busy
ready_last = record {
  stored = refl;
  claimable = refl;
  named = refl;
  unprocessed = refl;
  handled = busy-Responds;
}

finds_it :
    stores.ingest_events.find
      (λ y. str_eq y.event_id "e1")
      (last_try stores config message handlers env tired last_start busy).db.ingest_events
    ≡ in_dlq stores config message handlers env tired last_start busy ∷ []
unfolding dead_world
finds_it =
    ap
      (λ (p : Result (Unit {0}) × JobState stores).
        stores.ingest_events.find (λ y. str_eq y.event_id "e1") p.1.db.ingest_events)
      (process_event_dies stores config message handlers env tired last_start busy ready_last refl
        refl refl)

dead_letter-replay_example :
    (z : DlqEvent) × (stores.dlq_events.get "e1"
        (last_try stores config message handlers env tired last_start busy).db.dlq_events
      ≡ some z)
    × ((replay_event stores z
          (alone env)
          (last_try stores config message handlers env tired last_start busy)).0
        ≡ ok replayed)
    × (stores.ingest_events.get "m1"
          (replay_event stores z
            (alone env)
            (last_try stores config message handlers env tired last_start busy)).1.db.ingest_events
        ≡ some (record tired {
          status = queued;
          attempts = 0;
          next_attempt_at = some (
              env.now (
                suc
                  (suc (last_try stores config message handlers env tired last_start busy).clock)));
          last_error_code = none;
          last_error_at = none;
        }))
    × (stores.dlq_events.get "e1"
          (replay_event stores z
            (alone env)
            (last_try stores config message handlers env tired last_start busy)).1.db.dlq_events
        ≡ some z)
dead_letter-replay_example =
    dead_letter-replay stores config message handlers env tired last_start busy ready_last refl refl
      refl finds_it
