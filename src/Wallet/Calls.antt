-- ===== src/Wallet/Calls.antt =====
-- The methods of the wallet service as requests, one after the other: a request that throws leaves
-- what it wrote, and the next one goes on from there. The requests of other processes are the
-- environment's steps.
use red_room_rewards.Prelude.{String, List, [], ◌∷◌, Option}
use red_room_rewards.Domain.{
  EscrowHoldRequest, EscrowSettleRequest, EscrowRefundRequest, EscrowPartialSettleRequest,
}
use red_room_rewards.Store.{Mongo}
use red_room_rewards.Action.{pure, attempt, ◌>>=◌}
use red_room_rewards.Service.{Service}
use red_room_rewards.Wallet.Config.{Config}
use red_room_rewards.Wallet.Hold.{hold_in_escrow}
use red_room_rewards.Wallet.Settle.{settle_escrow}
use red_room_rewards.Wallet.Refund.{refund_escrow}
use red_room_rewards.Wallet.Partial.{partial_settle_escrow}
use red_room_rewards.Wallet.Balance.{get_user_balance, get_model_balance}

pub data Call : Type 0 where
  hold : EscrowHoldRequest → Call
  settle : EscrowSettleRequest → Option String → Call
  refund : EscrowRefundRequest → Option String → Call
  partial_settle : EscrowPartialSettleRequest → Option String → Call
  user_balance model_balance : String → Call

module _ (M : Mongo) (cfg : Config) where
  unfoldable pub perform : Call → Service M (Unit {0})
  perform (hold r) = attempt (hold_in_escrow M cfg r) >>= λ _. pure tt
  perform (settle r t) = attempt (settle_escrow M cfg r t) >>= λ _. pure tt
  perform (refund r t) = attempt (refund_escrow M cfg r t) >>= λ _. pure tt
  perform (partial_settle r t) = attempt (partial_settle_escrow M cfg r t) >>= λ _. pure tt
  perform (user_balance id) = attempt (get_user_balance M id) >>= λ _. pure tt
  perform (model_balance id) = attempt (get_model_balance M id) >>= λ _. pure tt

  unfoldable pub perform_all : List Call → Service M (Unit {0})
  perform_all [] = pure tt
  perform_all (c ∷ cs) = perform c >>= λ _. perform_all cs
