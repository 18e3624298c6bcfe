-- ===== src/Accrual/Calls.antt =====
-- The methods of the accrual service as requests, one after the other. The bonuses and the credit by
-- an administrator are awards.
use red_room_rewards.Prelude.{List, [], ◌∷◌}
use red_room_rewards.Store.{Mongo}
use red_room_rewards.Action.{pure, attempt, ◌>>=◌}
use red_room_rewards.Service.{Service}
use red_room_rewards.Accrual.Requests.{AwardPointsRequest, PointAccrualConfig}
use red_room_rewards.Accrual.Award.{award_points}
use red_room_rewards.Accrual.Deduct.{deduct_from_available}

pub data Call : Type 0 where
  award deduct : AwardPointsRequest → Call

module _ (M : Mongo) (cfg : PointAccrualConfig) where
  unfoldable pub perform : Call → Service M (Unit {0})
  perform (award r) = attempt (award_points M cfg r) >>= λ _. pure tt
  perform (deduct r) = attempt (deduct_from_available M cfg r) >>= λ _. pure tt

  unfoldable pub perform_all : List Call → Service M (Unit {0})
  perform_all [] = pure tt
  perform_all (c ∷ cs) = perform c >>= λ _. perform_all cs
