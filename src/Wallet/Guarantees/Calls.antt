-- ===== src/Wallet/Guarantees/Calls.antt =====
-- The guarantees of sequences of requests.
use red_room_rewards.Prelude.{ℤ, List, [], ◌∷◌, All}
use red_room_rewards.Store.{Mongo, Db}
use red_room_rewards.Action.Keeps.{
  Guarantees, Guarantees-pure, Guarantees-bind, Guarantees-read, Guarantees-swallow,
}
use red_room_rewards.Wallet.Config.{Config}
use red_room_rewards.Wallet.Steps.{find_wallet, find_model_wallet}
use red_room_rewards.Wallet.Balance.{get_user_balance, get_model_balance}
use red_room_rewards.Wallet.Calls.{
  Call, hold, settle, refund, partial_settle, user_balance, model_balance, perform, perform_all,
}
use red_room_rewards.Wallet.Guarantees.Steps.{WalletSteps, hold_steps, refund_steps}
use red_room_rewards.Wallet.Guarantees.Hold.{hold-Guarantees}
use red_room_rewards.Wallet.Guarantees.Settle.{settle-Guarantees}
use red_room_rewards.Wallet.Guarantees.Refund.{refund-Guarantees}
use red_room_rewards.Wallet.Guarantees.Partial.{partial-Guarantees}

-- The amount that a call may give back to an available balance.
abbrev pub GivesBack : (ℤ → Type 0) → Call → Type 0
GivesBack P (refund r t) = P r.amount
GivesBack P (partial_settle r t) = P r.refund_amount
GivesBack P _ = Unit

pub GivesBack-any : (cs : List Call) → All (GivesBack (λ a. Unit {0})) cs
GivesBack-any [] = tt
GivesBack-any (refund r t ∷ cs) = (tt, GivesBack-any cs)
GivesBack-any (_ ∷ cs) = (tt, GivesBack-any cs)

module _ {M : Mongo} {Allowed : ℤ → Type 0} {G : Db M → Db M → Type 0} where
  module _ (s : WalletSteps Allowed G) (cfg : Config) where
    perform-Guarantees : (c : Call) → GivesBack Allowed c → Guarantees G (perform M cfg c)
    unfolding perform get_user_balance get_model_balance find_wallet find_model_wallet
    perform-Guarantees (hold r) a =
        Guarantees-swallow s.order _ (hold-Guarantees (hold_steps s) cfg r)
    perform-Guarantees (settle r t) a = Guarantees-swallow s.order _ (settle-Guarantees s cfg r t)
    perform-Guarantees (refund r t) a =
        Guarantees-swallow s.order _ (refund-Guarantees (refund_steps s) cfg r t a)
    perform-Guarantees (partial_settle r t) a =
        Guarantees-swallow s.order _ (partial-Guarantees s cfg r t a)
    perform-Guarantees (user_balance id) a =
        Guarantees-swallow s.order _
          (Guarantees-bind s.order _ _ (Guarantees-read s.order _) (λ x. Guarantees-pure s.order _))
    perform-Guarantees (model_balance id) a =
        Guarantees-swallow s.order _
          (Guarantees-bind s.order _ _ (Guarantees-read s.order _) (λ x. Guarantees-pure s.order _))

    -- Any sequence of requests, among any steps of others that keep the relation.
    pub perform_all-Guarantees :
        (cs : List Call) → All (GivesBack Allowed) cs → Guarantees G (perform_all M cfg cs)
    unfolding perform_all
    perform_all-Guarantees [] a = Guarantees-pure s.order tt
    perform_all-Guarantees (c ∷ cs) a =
        Guarantees-bind s.order _ _ (perform-Guarantees c a.0) (λ _. perform_all-Guarantees cs a.1)
