-- ===== src/Reservations/Status.antt =====
-- The state machine of reservations/service.ts: its steps, sequences of them, and the life of a
-- reservation along them.
use red_room_rewards.Prelude.{◌<◌, ℕ, String, ◌≡◌, Bool, false, some}
use red_room_rewards.Store.Interface.{DocStore}
use red_room_rewards.Reservations.{
  is_active, Reservation, CreateReservationRequest, create_reservation, commit_reservation,
  release_reservation, mark_expired_reservations, remove_outdated,
}

-- A reservation that may have left the active state: nothing else of it has changed, and once it has
-- left, nothing has.
pub record Later (r r' : Reservation) : Type 0 where
  pub final : is_active r.status ≡ false → r' ≡ r
  pub same_id : r'.reservation_id ≡ r.reservation_id
  pub same_user : r'.user_id ≡ r.user_id
  pub same_amount : r'.amount ≡ r.amount
  pub same_expiry : r'.expires_at ≡ r.expires_at

-- Documents are deleted for their age only before the time `until`.
module _ (S : DocStore String Reservation) (until : ℕ) where
  -- One request to the service, or one deletion of a document for its age.
  pub data Step : S.Docs → S.Docs → Type 0 where
    creates :
        (r : CreateReservationRequest) (now : ℕ) (c : S.Docs)
        → Step c (create_reservation S r now c).1
    commits : (id : String) (now : ℕ) (c : S.Docs) → Step c (commit_reservation S id now c).1
    releases : (id : String) (now : ℕ) (c : S.Docs) → Step c (release_reservation S id now c).1
    expires :
        (batch : String → Bool) (now : ℕ) (c : S.Docs)
        → Step c (mark_expired_reservations S batch now c).1
    sweeps :
        (id : String) (now : ℕ) (c : S.Docs) → now < until → Step c (remove_outdated S id now c)

  -- Any requests and deletions, in any order.
  pub data Steps : S.Docs → S.Docs → Type 0 where
    done : (c : S.Docs) → Steps c c
    next : (b c d : S.Docs) → Step b c → Steps c d → Steps b d

  -- What becomes of a reservation that is in the collection.
  abbrev Kept : S.Docs → S.Docs → Type 0
  Kept c c' =
      (id : String) (r : Reservation)
      → S.get id c ≡ some r
      → (r' : Reservation) × (S.get id c' ≡ some r') × Later r r'
