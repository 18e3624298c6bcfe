-- ===== src/Accrual/Tests.antt =====
-- Runs of the accrual service at concrete inputs.
use red_room_rewards.Prelude.{
  pos, ◌+ℤ◌, ◌≡◌, refl, List, [], ◌∷◌, true, none, some, arith, Bool-cases, inl, inr, str_eq,
  is_blank,
}
use red_room_rewards.Domain.{promotional_award, admin_debit}
use red_room_rewards.Store.{Db}
use red_room_rewards.Store.Docs.{Wallet, LedgerEntry}
use red_room_rewards.Store.Memory.{memory, empty_db}
use red_room_rewards.Action.{Env, ok, alone}
use red_room_rewards.Service.{State}
use red_room_rewards.Ledger.Pii.{pii_error, is_pii_field, has_email}
use red_room_rewards.Ledger.Entries.Alone.{MakesIds, new_doc}
use red_room_rewards.Wallet.Invariants.NonNegative.{NonNegative}
use red_room_rewards.Accrual.Requests.{AwardPointsRequest, PointAccrualConfig}
use red_room_rewards.Accrual.Checks.{validate_amount, with_field}
use red_room_rewards.Accrual.Award.{award_entry, award_points}
use red_room_rewards.Accrual.Deduct.{deduct_from_available}
use red_room_rewards.Accrual.Calls.{Call, award, deduct, perform_all}
use red_room_rewards.Accrual.Alone.{
  IsClean, CanAward, IsAwarded, award_response, award_effects, award_repeated,
}
use red_room_rewards.Accrual.Deduction.{CanDeduct, IsDeducted, deduct_response, deduct_effects}
use red_room_rewards.Accrual.Invariants.{accrual-NonNegative}

abbrev config : PointAccrualConfig
config = record {
  default_currency = "points";
  max_award_amount = pos 1000000000;
  min_award_amount = pos 1000;
  max_retry_attempts = 3;
  ledger_currency = "points";
}

abbrev env : Env (Db memory)
env = record { others = λ n d. d; uuid = λ n. "id"; now = λ n. n; delivers = λ n. true }

env-MakesIds : MakesIds env
unfolding is_blank
env-MakesIds = record { given = λ n. refl; shown = λ n. refl }

abbrev wallet : Wallet
wallet = record {
  user_id = "ann";
  available_balance = pos 5000;
  escrow_balance = pos 0;
  currency = "points";
  version = 3;
}

abbrev start : State memory
start = record {
  clock = 0;
  db = record empty_db { wallets = ("ann", wallet) ∷ [] };
  published = [];
  publish_errors = 0;
}

abbrev request : AwardPointsRequest
request = record {
  user_id = "ann";
  amount = pos 2000;
  reason = promotional_award;
  idempotency_key = "promo-1-ann";
  request_id = "r1";
  tenant_id = "t";
  metadata = none;
  expires_at = some "2026-01-01T00:00:00.000Z";
}

clean : IsClean memory config request env
unfolding pii_error with_field is_pii_field has_email
clean = record { clean = refl }

can_award : CanAward memory config request env wallet start.db
unfolding validate_amount
can_award = record { amount = refl; reason = refl; wallet = refl; unseen = refl }

award_effects_example :
    ((award_points memory config request (alone env) start).0
      ≡ ok (award_response memory config request env wallet start))
    × IsAwarded memory config request env wallet start
        (award_points memory config request (alone env) start).1.db
award_effects_example =
    award_effects memory config request env 2 wallet start refl clean env-MakesIds can_award refl

-- The award has been made before.
abbrev old_entry : LedgerEntry
old_entry = new_doc memory "points" (award_entry config request "t0" wallet) "t0" env start

abbrev awarded : State memory
awarded = record start { db = record start.db { ledger_entries = ("promo-1-ann", old_entry) ∷ [] } }

awardable : CanAward memory config request env wallet awarded.db
unfolding validate_amount
awardable = record { amount = refl; reason = refl; wallet = refl; unseen = refl }

award_repeated_example :
    ((award_points memory config request (alone env) awarded).0
      ≡ ok (award_response memory config request env wallet awarded))
    × ((award_points memory config request (alone env) awarded).1.db ≡ record awarded.db {
      wallets = ("ann", record wallet { available_balance = pos 7000; version = 4 }) ∷ [];
    })
unfolding ◌+ℤ◌
award_repeated_example =
    award_repeated memory config request env 2 wallet awarded old_entry refl clean env-MakesIds
      awardable refl

abbrev deduction : AwardPointsRequest
deduction = record request { reason = admin_debit; idempotency_key = "d1"; expires_at = none }

deduction-clean : pii_error (some []) ≡ none
unfolding pii_error
deduction-clean = refl

can_deduct : CanDeduct memory config deduction env wallet start.db
unfolding validate_amount
can_deduct = record { amount = refl; reason = refl; wallet = refl; unseen = refl }

deduct_effects_example :
    ((deduct_from_available memory config deduction (alone env) start).0
      ≡ ok (deduct_response memory config deduction env wallet start))
    × IsDeducted memory config deduction env wallet start
        (deduct_from_available memory config deduction (alone env) start).1.db
deduct_effects_example =
    deduct_effects memory config deduction env 2 wallet start refl deduction-clean env-MakesIds
      can_deduct (omega arith) refl

abbrev large : AwardPointsRequest
large = record deduction { amount = pos 9000 }

can_deduct_large : CanDeduct memory config large env wallet start.db
unfolding validate_amount
can_deduct_large = record { amount = refl; reason = refl; wallet = refl; unseen = refl }

abbrev calls : List Call
calls = award request ∷ deduct deduction ∷ deduct large ∷ []

start-NonNegative : NonNegative start.db
start-NonNegative = record {
  solvent = λ id w h. elim (Bool-cases (str_eq id "ann")) [
    | inl same ↦ ground arith
    | inr other ↦ ground arith
  ];
}

accrual-NonNegative_example : NonNegative (perform_all memory config calls env start).1.db
accrual-NonNegative_example =
    accrual-NonNegative config calls env start (record { step = λ n d h. h }) start-NonNegative
