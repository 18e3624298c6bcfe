-- ===== src/Ingest/Replay/Counts.antt =====
-- The counters that `replay` of ingest-worker/replay.ts answers.
use red_room_rewards.Prelude.{
  ℕ, suc, ◌+◌, ◌≡◌, refl, List, [], ◌∷◌, none, some, length, take, sort_by, pos, arith,
}
use red_room_rewards.Action.{Env, Result, ok, err, ◌>>=◌}
use red_room_rewards.Ingest.{DlqEvent, IngestStores, IngestDb, JobState}
use red_room_rewards.Ingest.Steps.{find_dlq}
use red_room_rewards.Ingest.Replay.{
  ReplayOptions, ReplayResult, nothing_yet, selects, limit_of, Outcome, skipped, replayed, counted,
  replay_event, replay_each, replay,
}

-- The counters after `n` rounds.
pub record Counts (n : ℕ) (r : ReplayResult) : Type 0 where
  pub replays : r.successful + r.failed ≡ r.total_replayed
  pub rounds : r.successful + r.failed + r.skipped ≡ n

Counts-counted :
    (n : ℕ) (o : Result Outcome) (r : ReplayResult) → Counts n r → Counts (suc n) (counted o r)
Counts-counted n (ok skipped) r c = omega arith
Counts-counted n (ok replayed) r c = omega arith
Counts-counted n (err x) r c = omega arith

module _ (S : IngestStores) (e : Env (IngestDb S)) where
  replay_each-Counts :
      (xs : List DlqEvent) (n m : ℕ) (r : ReplayResult) (w : JobState S)
      → Counts n r
      → n + length xs ≡ m
      → (r' : ReplayResult) × ((replay_each S xs r e w).0 ≡ ok r') × Counts m r'
  unfolding replay_each ◌>>=◌
  replay_each-Counts [] n m r w c sum = let same : n ≡ m = omega arith in (r, refl, rw (← same) c)
  replay_each-Counts (x ∷ xs) n m r w c sum =
      replay_each-Counts xs (suc n) m (counted (replay_event S x e w).0 r) _
        (Counts-counted n (replay_event S x e w).0 r c) (omega arith)

  -- The letters that the replay goes through.
  unfoldable pub selected : ReplayOptions → JobState S → List DlqEvent
  selected o w =
      let sorted =
        sort_by (λ x. pos x.moved_to_dlq_at)
          (S.dlq_events.find (selects o) (e.others w.clock w.db).dlq_events) in
      elim (limit_of o) [ none ↦ sorted | some n ↦ take n sorted ]

  -- A replay always answers, whatever else happens to the collections: the replays it counts are those
  -- that succeeded and those that failed, and with those it skipped they are as many as the letters
  -- that it selected.
  pub replay-Counts :
      (o : ReplayOptions) (w : JobState S)
      → (r : ReplayResult) × ((replay S o e w).0 ≡ ok r) × Counts (length (selected o w)) r
  unfolding replay find_dlq selected ◌>>=◌
  replay-Counts o w =
      replay_each-Counts (selected o w) 0 (length (selected o w)) nothing_yet _
        (record { replays = omega arith; rounds = omega arith }) (omega arith)
