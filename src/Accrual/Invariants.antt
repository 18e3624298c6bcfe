-- ===== src/Accrual/Invariants.antt =====
-- The invariants of `awardPoints` and `deductFromAvailable` of services/point-accrual.service.ts,
-- under interference.
use red_room_rewards.Prelude.{ℤ, pos, ◌≤ℤ◌, int_laws, ◌≡◌, List, arith}
use red_room_rewards.Store.{Mongo, Db}
use red_room_rewards.Action.{Env, Respects, ok}
use red_room_rewards.Service.{State}
use red_room_rewards.Wallet.Invariants.NonNegative.{
  NonNegative, StaysNonNegative, StaysNonNegative-Preorder, NonNegative-steps,
  update_wallet-NonNegative,
}
use red_room_rewards.Accrual.Requests.{PointAccrualConfig}
use red_room_rewards.Accrual.Checks.{validate_amount}
use red_room_rewards.Accrual.Award.{awarded_wallet}
use red_room_rewards.Accrual.Deduct.{deducted_wallet, can_deduct}
use red_room_rewards.Accrual.Calls.{Call, perform_all}
use red_room_rewards.Accrual.Guarantees.{AccrualSteps, perform_all-Guarantees}

validate_amount-nonneg :
    (cfg : PointAccrualConfig) (amount : ℤ) → validate_amount cfg amount ≡ ok tt → pos 0 ≤ℤ amount
unfolding validate_amount
validate_amount-nonneg cfg amount h = ground arith

module _ {M : Mongo} (cfg : PointAccrualConfig) where
  NonNegative-accrual : AccrualSteps {M = M} cfg StaysNonNegative
  unfolding awarded_wallet deducted_wallet can_deduct
  NonNegative-accrual = record {
    order = StaysNonNegative-Preorder;
    inserts = NonNegative-steps.inserts;
    creates = NonNegative-steps.creates;
    awards = λ id a v d valid.
        let nonneg = validate_amount-nonneg cfg a valid in
        update_wallet-NonNegative id _ _ d (λ w fits h. grind int_laws);
    deducts = λ id a v d. update_wallet-NonNegative id _ _ d (λ w fits h. grind int_laws);
  }

  -- If no available balance is negative, then none is after any awards and deductions, among steps of
  -- others that keep it so.
  pub accrual-NonNegative :
      (cs : List Call) (e : Env (Db M)) (w : State M)
      → Respects StaysNonNegative e
      → NonNegative w.db
      → NonNegative (perform_all M cfg cs e w).1.db
  accrual-NonNegative cs e w r = (perform_all-Guarantees cfg NonNegative-accrual cs).at e w r
