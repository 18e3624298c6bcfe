-- ===== src/Wallet/Tests/Partials.antt =====
-- Runs of `partialSettleEscrow`.
use red_room_rewards.Prelude.{ℕ, pos, ◌+ℤ◌, ◌-ℤ◌, abs, ◌≤ℤ◌, ◌≡◌, refl, some, arith}
use red_room_rewards.Domain.{EscrowPartialSettleRequest, amounts_must_equal_escrow}
use red_room_rewards.Store.Docs.{Wallet, ModelWallet}
use red_room_rewards.Store.Memory.{memory}
use red_room_rewards.Action.{ok, err, alone}
use red_room_rewards.Ledger.Pii.{pii_error}
use red_room_rewards.Wallet.Steps.{require_token}
use red_room_rewards.Wallet.Partial.{tolerance, partial_settle_escrow}
use red_room_rewards.Wallet.Partial.Alone.{IsClean}
use red_room_rewards.Wallet.Partial.Recording.{partial_response}
use red_room_rewards.Wallet.Partial.Run.{Covers, CanSettle, item_before}
use red_room_rewards.Wallet.Partial.Effects.{
  IsSplit, partial_effects, partial_mismatch, partial_total,
}
use red_room_rewards.Wallet.Tests.{
  config, env, env-MakesIds, user_wallet, model_wallet, held_escrow, start, partial_request, token,
}

token-given : require_token token ≡ ok tt
unfolding require_token
token-given = refl

clean : IsClean partial_request
unfolding pii_error
clean = record { clean = refl; reason_given = refl }

covers : Covers memory config partial_request env (pos 2000)
unfolding ◌+ℤ◌ ◌-ℤ◌ abs
covers = omega arith

can_settle :
    CanSettle memory config partial_request env held_escrow user_wallet model_wallet start.db
can_settle = record {
  item = refl;
  is = refl;
  covers = covers;
  user = refl;
  model = refl;
  keys_free = record { refund_free = refl; settle_free = refl };
}

partial_effects_example :
    ((timestamp : ℕ) × ((partial_settle_escrow memory config partial_request token
          (alone env)
          start).0
        ≡ ok (
            partial_response memory config partial_request env user_wallet model_wallet "id"
              timestamp)))
    × IsSplit memory config partial_request env held_escrow user_wallet model_wallet "id" start
        (partial_settle_escrow memory config partial_request token (alone env) start).1.db
partial_effects_example =
    partial_effects memory config partial_request env token held_escrow user_wallet model_wallet
      start token-given clean env-MakesIds refl can_settle

-- The parts make up less than the item.
abbrev short_request : EscrowPartialSettleRequest
short_request = record partial_request { refund_amount = pos 400 }

partial_mismatch_example :
    ((partial_settle_escrow memory config short_request token (alone env) start).0
      ≡ err amounts_must_equal_escrow)
    × ((partial_settle_escrow memory config short_request token (alone env) start).1.db.wallets
        ≡ start.db.wallets)
    × ((partial_settle_escrow memory config short_request token
          (alone env)
          start).1.db.model_wallets
        ≡ start.db.model_wallets)
    × (memory.escrow_items.get "e1"
          (partial_settle_escrow memory config short_request token
            (alone env)
            start).1.db.escrow_items
        ≡ some (item_before memory config short_request env held_escrow start))
unfolding ◌+ℤ◌ ◌-ℤ◌ abs
partial_mismatch_example =
    partial_mismatch memory config short_request env token held_escrow start token-given refl refl
      refl (omega arith)

answered :
    (timestamp : ℕ) × ((partial_settle_escrow memory config partial_request token
        (alone env)
        start).0
      ≡ ok (
          partial_response memory config partial_request env user_wallet model_wallet "id"
            timestamp))
answered =
    (partial_effects memory config partial_request env token held_escrow user_wallet model_wallet
      start token-given clean env-MakesIds refl can_settle).0

partial_total_example :
    (u' : Wallet) × (m' : ModelWallet) × (memory.wallets.get "ann"
        (partial_settle_escrow memory config partial_request token (alone env) start).1.db.wallets
      ≡ some u')
    × (memory.model_wallets.get "mia"
          (partial_settle_escrow memory config partial_request token
            (alone env)
            start).1.db.model_wallets
        ≡ some m')
    × (abs (
          u'.available_balance
          +ℤ u'.escrow_balance
          +ℤ m'.earned_balance
          -ℤ (pos 5000 +ℤ pos 2000 +ℤ pos 100))
        ≤ℤ tolerance)
unfolding ◌+ℤ◌
partial_total_example =
    partial_total memory config partial_request env token held_escrow user_wallet model_wallet start
      (partial_response memory config partial_request env user_wallet model_wallet "id" answered.0)
      token-given clean env-MakesIds refl refl refl refl refl
      (record { refund_free = refl; settle_free = refl }) answered.1
