-- ===== src/Reservations/Tests.antt =====
-- Runs of the reservation service at concrete inputs.
use red_room_rewards.Prelude.{pos, String, [], ◌∷◌, true, none}
use red_room_rewards.Store.Interface.{DocStore}
use red_room_rewards.Store.Table.{table, by_text}
use red_room_rewards.Reservations.{
  active, Reservation, commit_reservation, remove_outdated, mark_expired_reservations,
}

abbrev store : DocStore String Reservation
store = table by_text

abbrev reservation : Reservation
reservation = record {
  reservation_id = "v1";
  user_id = "ann";
  amount = pos 100;
  status = active;
  created_at = 1;
  updated_at = 1;
  expires_at = 50;
  source_correlation_id = none;
}

abbrev start : store.Docs
start = ("v1", reservation) ∷ []

abbrev after_commit : store.Docs
after_commit = (commit_reservation store "v1" 10 start).1

-- After the commit, the job runs that expires what is overdue.
abbrev after_job : store.Docs
after_job = (mark_expired_reservations store (λ id. true) 99 after_commit).1

-- Then MongoDB looks for what is past its expiry, at the time 40.
abbrev after_sweep : store.Docs
after_sweep = remove_outdated store "v1" 40 after_job
