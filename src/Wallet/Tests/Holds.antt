-- ===== src/Wallet/Tests/Holds.antt =====
-- Runs of `holdInEscrow`.
use red_room_rewards.Prelude.{◌≡◌, refl, none, arith}
use red_room_rewards.Store.Memory.{memory}
use red_room_rewards.Action.{ok, alone}
use red_room_rewards.Service.{State}
use red_room_rewards.Ledger.Idempotency.Claims.{with_claim}
use red_room_rewards.Ledger.Pii.{pii_error}
use red_room_rewards.Wallet.Hold.{hold_in_escrow}
use red_room_rewards.Wallet.Hold.Alone.{IsClean, hold_response}
use red_room_rewards.Wallet.Hold.Run.{CanHold, before_entries}
use red_room_rewards.Wallet.Hold.Effects.{IsHeld, hold_effects}
use red_room_rewards.Wallet.Tests.{config, env, env-MakesIds, user_wallet, start, hold_request}

clean : IsClean hold_request
unfolding pii_error
clean = record { clean = refl; reason_given = refl }

can_hold : CanHold memory config hold_request env user_wallet "id" start.db
can_hold = record {
  found = refl;
  covered = omega arith;
  amount_nonneg = omega arith;
  id_free = refl;
  queue_free = refl;
  keys_free = record { debit_free = refl; credit_free = refl };
}

hold_effects_example :
    ((hold_in_escrow memory config hold_request (alone env) start).0
      ≡ ok (
          hold_response memory config hold_request env "id" user_wallet
            (before_entries memory config hold_request env user_wallet start)))
    × IsHeld memory config hold_request env user_wallet start
        (hold_in_escrow memory config hold_request (alone env) start).1.db
hold_effects_example =
    hold_effects memory config hold_request env 2 user_wallet start refl clean env-MakesIds refl
      can_hold

-- The key has been claimed before.
abbrev claimed : State memory
claimed = record start { db = with_claim memory "k1" "hold_escrow" none 0 start.db }
