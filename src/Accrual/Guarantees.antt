-- ===== src/Accrual/Guarantees.antt =====
-- The steps of the methods of services/point-accrual.service.ts, and the rule by which a relation
-- between databases that each step keeps is one that the methods keep.
use red_room_rewards.Prelude.{
  ℕ, zero, suc, ℤ, String, ◌≡◌, Bool, true, false, List, [], ◌∷◌, Option, none, some, ◌==◌,
}
use red_room_rewards.Store.{Mongo, Db}
use red_room_rewards.Store.Docs.{Wallet, LedgerEntry}
use red_room_rewards.Action.{ok}
use red_room_rewards.Action.Keeps.{
  Preorder, Guarantees, Guarantees-pure, Guarantees-throw, Guarantees-lift, Guarantees-bind_lift,
  Guarantees-atomically, Guarantees-fresh_id, Guarantees-current_time, Guarantees-bind,
  Guarantees-swallow,
}
use red_room_rewards.Service.{Service}
use red_room_rewards.Ledger.Entries.{insert_entry}
use red_room_rewards.Ledger.Entries.Laws.{IsRecordable, create_entry-Guarantees}
use red_room_rewards.Ledger.Idempotency.Laws.{check_idempotency-Guarantees}
use red_room_rewards.Wallet.Steps.{
  new_wallet, create_wallet, update_wallet, find_wallet, or_create_wallet, get_or_create_wallet,
}
use red_room_rewards.Accrual.Requests.{AwardPointsRequest, AwardPointsResponse, PointAccrualConfig}
use red_room_rewards.Accrual.Checks.{validate_amount, check_first}
use red_room_rewards.Accrual.Award.{
  awarded_wallet, record_award, after_award, award_attempts, award_points,
}
use red_room_rewards.Accrual.Deduct.{
  deducted_wallet, can_deduct, record_deduction, after_deduction, deduct_attempts,
  deduct_from_available,
}
use red_room_rewards.Accrual.Calls.{Call, award, deduct, perform, perform_all}

-- The amount that is awarded has passed its check.
pub record AccrualSteps {M : Mongo} (cfg : PointAccrualConfig) (G : Db M → Db M → Type 0)
    : Type 0 where
  pub order : Preorder G
  pub inserts : (e : LedgerEntry) (d : Db M) → IsRecordable e → G d (insert_entry M e d).1
  pub creates :
      (id currency : String) (d : Db M) → G d (create_wallet M (new_wallet id currency) d).1
  pub awards :
      (id : String) (amount : ℤ) (version : ℕ) (d : Db M)
      → validate_amount cfg amount ≡ ok tt
      → G d (update_wallet M id (λ w. w.version == version) (awarded_wallet amount) d).1
  pub deducts :
      (id : String) (amount : ℤ) (version : ℕ) (d : Db M)
      → G d (update_wallet M id (can_deduct amount version) (deducted_wallet amount) d).1

module _ {M : Mongo} (cfg : PointAccrualConfig) {G : Db M → Db M → Type 0}
    (s : AccrualSteps cfg G) where
  check_first-Guarantees :
      (first : Bool) (key operation tenant : String)
      → Guarantees G (check_first M first key operation tenant)
  unfolding check_first
  check_first-Guarantees false key operation tenant = Guarantees-pure s.order tt
  check_first-Guarantees true key operation tenant =
      Guarantees-bind s.order _ _ (check_idempotency-Guarantees M s.order key operation tenant)
        (λ seen. Guarantees-lift s.order _)

  or_create_wallet-Guarantees :
      (currency id : String) (found : Option Wallet)
      → Guarantees G (or_create_wallet M currency id found)
  unfolding or_create_wallet
  or_create_wallet-Guarantees currency id none =
      Guarantees-atomically s.order (create_wallet M (new_wallet id currency))
        (s.creates id currency)
  or_create_wallet-Guarantees currency id (some w) = Guarantees-pure s.order w

  get_or_create_wallet-Guarantees :
      (currency id : String) → Guarantees G (get_or_create_wallet M currency id)
  unfolding get_or_create_wallet find_wallet
  get_or_create_wallet-Guarantees currency id =
      Guarantees-bind s.order _ _
        (Guarantees-atomically s.order (find_wallet M id) s.order.rel_refl)
        (or_create_wallet-Guarantees currency id)

  record_award-Guarantees :
      (r : AwardPointsRequest) (w : Wallet) → Guarantees G (record_award M cfg r w)
  unfolding record_award
  record_award-Guarantees r w =
      search
        (
          Guarantees-bind s.order,
          Guarantees-pure s.order,
          Guarantees-fresh_id s.order,
          Guarantees-current_time s.order,
          create_entry-Guarantees M s.order s.inserts,
        )
        depth 20

  record_deduction-Guarantees :
      (r : AwardPointsRequest) (w : Wallet) → Guarantees G (record_deduction M cfg r w)
  unfolding record_deduction
  record_deduction-Guarantees r w =
      search
        (
          Guarantees-bind s.order,
          Guarantees-pure s.order,
          Guarantees-fresh_id s.order,
          Guarantees-current_time s.order,
          create_entry-Guarantees M s.order s.inserts,
        )
        depth 20

  after_award-Guarantees :
      (again : Service M AwardPointsResponse) (r : AwardPointsRequest) (w : Wallet)
      (found : Option Wallet)
      → Guarantees G again
      → Guarantees G (after_award M cfg again r w found)
  unfolding after_award
  after_award-Guarantees again r w none k = k
  after_award-Guarantees again r w (some _) k = record_award-Guarantees r w

  after_deduction-Guarantees :
      (again : Service M AwardPointsResponse) (r : AwardPointsRequest) (w : Wallet)
      (found : Option Wallet)
      → Guarantees G again
      → Guarantees G (after_deduction M cfg again r w found)
  unfolding after_deduction
  after_deduction-Guarantees again r w none k = k
  after_deduction-Guarantees again r w (some _) k = record_deduction-Guarantees r w

  award_attempts-Guarantees :
      (left : ℕ) (first : Bool) (r : AwardPointsRequest)
      → Guarantees G (award_attempts M cfg left first r)
  unfolding award_attempts
  award_attempts-Guarantees zero first r = Guarantees-throw s.order _
  award_attempts-Guarantees (suc left) first r = Guarantees-bind_lift s.order _ _ (λ _ valid.
      Guarantees-bind s.order _ _ (Guarantees-lift s.order _) (λ _.
        Guarantees-bind s.order _ _ (check_first-Guarantees first _ _ _) (λ _.
          Guarantees-bind s.order _ _ (get_or_create_wallet-Guarantees _ _) (λ w.
            Guarantees-bind s.order _ _
              (Guarantees-atomically s.order _ (λ d. s.awards r.user_id r.amount w.version d valid))
              (λ found.
                after_award-Guarantees _ r w found (award_attempts-Guarantees left false r))))))

  deduct_attempts-Guarantees :
      (left : ℕ) (first : Bool) (r : AwardPointsRequest)
      → Guarantees G (deduct_attempts M cfg left first r)
  unfolding deduct_attempts find_wallet
  deduct_attempts-Guarantees zero first r = Guarantees-throw s.order _
  deduct_attempts-Guarantees (suc left) first r =
      Guarantees-bind s.order _ _ (Guarantees-lift s.order _) (λ _.
        Guarantees-bind s.order _ _ (Guarantees-lift s.order _) (λ _.
          Guarantees-bind s.order _ _ (check_first-Guarantees first _ _ _) (λ _.
            Guarantees-bind s.order _ _
              (Guarantees-atomically s.order (find_wallet M r.user_id) s.order.rel_refl)
              (λ found. Guarantees-bind s.order _ _ (Guarantees-lift s.order _) (λ w.
                Guarantees-bind s.order _ _ (Guarantees-lift s.order _) (λ _.
                  Guarantees-bind s.order _ _
                    (Guarantees-atomically s.order _ (s.deducts r.user_id r.amount w.version))
                    (λ updated.
                      after_deduction-Guarantees _ r w updated
                        (deduct_attempts-Guarantees left false r))))))))

  perform-Guarantees : (c : Call) → Guarantees G (perform M cfg c)
  unfolding perform award_points deduct_from_available
  perform-Guarantees (award r) =
      Guarantees-swallow s.order _ (award_attempts-Guarantees cfg.max_retry_attempts true r)
  perform-Guarantees (deduct r) =
      Guarantees-swallow s.order _ (deduct_attempts-Guarantees cfg.max_retry_attempts true r)

  pub perform_all-Guarantees : (cs : List Call) → Guarantees G (perform_all M cfg cs)
  unfolding perform_all
  perform_all-Guarantees [] = Guarantees-pure s.order tt
  perform_all-Guarantees (c ∷ cs) =
      Guarantees-bind s.order _ _ (perform-Guarantees c) (λ _. perform_all-Guarantees cs)
