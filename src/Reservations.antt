-- ===== src/Reservations.antt =====
-- The reservation service, reservations/service.ts, over the documents of
-- db/models/reservation.model.ts. Each method makes one call of the database, so that any requests at
-- once are a sequence of these calls. Metrics and the reading of a user's list, which only sorts what
-- `find` returns, are left out.
pub mod Status
pub mod Tests
use red_room_rewards.Prelude.{
  ℕ, ◌+◌, leb, ltb_ℤ, pos, ℤ, String, Bool, true, false, ◌&&◌, List, Option, none, some, length,
  if◌then◌else◌,
}
use red_room_rewards.Domain.{duplicate_key, validation_failed}
use red_room_rewards.Store.Interface.{DocStore}
use red_room_rewards.Action.{Result, ok, err}

pub data ReservationStatus : Type 0 where
  active committed released expired : ReservationStatus

abbrev pub is_active : ReservationStatus → Bool
is_active active = true
is_active _ = false

abbrev pub is_committed : ReservationStatus → Bool
is_committed committed = true
is_committed _ = false

abbrev pub is_released : ReservationStatus → Bool
is_released released = true
is_released _ = false

abbrev pub is_expired : ReservationStatus → Bool
is_expired expired = true
is_expired _ = false

pub record Reservation : Type 0 where
  pub reservation_id : String
  pub user_id : String
  pub amount : ℤ
  pub status : ReservationStatus
  pub created_at : ℕ
  pub updated_at : ℕ
  pub expires_at : ℕ
  pub source_correlation_id : Option String

pub record CreateReservationRequest : Type 0 where
  pub reservation_id : String
  pub user_id : String
  pub amount : ℤ
  pub expires_at : ℕ
  pub source_correlation_id : Option String

pub record ReservationStats : Type 0 where
  pub total_active : ℕ
  pub total_committed : ℕ
  pub total_released : ℕ
  pub total_expired : ℕ

abbrev pub new_reservation : CreateReservationRequest → ℕ → Reservation
new_reservation r now = record {
  reservation_id = r.reservation_id;
  user_id = r.user_id;
  amount = r.amount;
  status = active;
  created_at = now;
  updated_at = now;
  expires_at = r.expires_at;
  source_correlation_id = r.source_correlation_id;
}

-- `{ $set: { status, updatedAt } }`
abbrev pub moved_to : ReservationStatus → ℕ → Reservation → Reservation
moved_to status now r = record r { status = status; updated_at = now }

module _ (S : DocStore String Reservation) where
  -- The schema's minimum, then the unique index on `reservationId`.
  unfoldable pub create_reservation :
      CreateReservationRequest → ℕ → S.Docs → Result Reservation × S.Docs
  create_reservation r now c =
      if ltb_ℤ r.amount (pos 0)
      then (err (validation_failed "amount"), c)
      else elim (S.get r.reservation_id c) [
        | some old ↦ (err (duplicate_key "reservationId"), c)
        | none ↦ (ok (new_reservation r now), S.put r.reservation_id (new_reservation r now) c)
      ]

  -- `findOneAndUpdate({ reservationId, status: ACTIVE }, …, { new: true })`
  unfoldable pub leave_active :
      ReservationStatus → String → ℕ → S.Docs → Option Reservation × S.Docs
  leave_active status id now c = elim (S.get id c) [
    | none ↦ (none, c)
    | some r ↦
        if is_active r.status
        then (some (moved_to status now r), S.put id (moved_to status now r) c)
        else (none, c)
  ]

  unfoldable pub commit_reservation : String → ℕ → S.Docs → Option Reservation × S.Docs
  commit_reservation id now c = leave_active committed id now c

  unfoldable pub release_reservation : String → ℕ → S.Docs → Option Reservation × S.Docs
  release_reservation id now c = leave_active released id now c

  -- The filter of `markExpiredReservations`, on the documents that the driver's batch takes.
  abbrev pub is_overdue : (String → Bool) → ℕ → Reservation → Bool
  is_overdue batch now r = is_active r.status && leb r.expires_at now && batch r.reservation_id

  unfoldable pub mark_expired_reservations : (String → Bool) → ℕ → S.Docs → ℕ × S.Docs
  mark_expired_reservations batch now c = (
    length (S.find (is_overdue batch now) c),
    S.update_all (is_overdue batch now) (moved_to expired now) c,
  )

  -- The index on `expiresAt`, by which MongoDB deletes a document some time after that date.
  unfoldable pub remove_outdated : String → ℕ → S.Docs → S.Docs
  remove_outdated id now c = elim (S.get id c) [
    | none ↦ c
    | some r ↦ if leb r.expires_at now then S.remove id c else c
  ]

  unfoldable pub get_stats : S.Docs → ReservationStats
  get_stats c = record {
    total_active = length (S.find (λ r. is_active r.status) c);
    total_committed = length (S.find (λ r. is_committed r.status) c);
    total_released = length (S.find (λ r. is_released r.status) c);
    total_expired = length (S.find (λ r. is_expired r.status) c);
  }

  unfoldable pub get_reservation : String → S.Docs → Option Reservation
  get_reservation id c = S.get id c
