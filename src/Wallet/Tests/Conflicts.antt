-- ===== src/Wallet/Tests/Conflicts.antt =====
-- Runs of `holdInEscrow` and `partialSettleEscrow` that lose a race.
use red_room_rewards.Prelude.{pos, arith, ◌≡◌, refl, none, some, ◌==◌, if◌then◌else◌}
use red_room_rewards.Domain.{optimistic_lock}
use red_room_rewards.Store.{Db}
use red_room_rewards.Store.Docs.{Wallet}
use red_room_rewards.Store.Memory.{memory}
use red_room_rewards.Action.{Env, err}
use red_room_rewards.Wallet.Hold.{execute_hold_in_escrow}
use red_room_rewards.Wallet.Hold.Run.{CanHold}
use red_room_rewards.Wallet.Hold.Conflict
use red_room_rewards.Wallet.Tests.{config, env, user_wallet, start, hold_request}

abbrev newer_wallet : Wallet
newer_wallet = record user_wallet { available_balance = pos 4000; version = 4 }

-- Another request spends a point of the user's between the read and the update.
abbrev user_env : Env (Db memory)
user_env = record env {
  others = λ n d.
      if n == 4 then record d { wallets = memory.wallets.put "ann" newer_wallet d.wallets } else d;
}

user_env-Intervenes : Conflict.Intervenes memory config hold_request newer_wallet user_env start
user_env-Intervenes = record {
  first = λ d. refl;
  second = λ d. refl;
  third = λ d. refl;
  fourth = λ d. refl;
}

can_hold : CanHold memory config hold_request user_env user_wallet "id" start.db
can_hold = record {
  found = refl;
  covered = omega arith;
  amount_nonneg = omega arith;
  id_free = refl;
  queue_free = refl;
  keys_free = record { debit_free = refl; credit_free = refl };
}

hold_conflict_example :
    ((execute_hold_in_escrow memory config hold_request user_env start).0
      ≡ err (optimistic_lock "wallet" "ann"))
    × (memory.escrow_items.get "id"
          (execute_hold_in_escrow memory config hold_request user_env start).1.db.escrow_items
        ≡ none)
    × (memory.wallets.get "ann"
          (execute_hold_in_escrow memory config hold_request user_env start).1.db.wallets
        ≡ some newer_wallet)
    × ((execute_hold_in_escrow memory config hold_request user_env start).1.db.model_wallets
        ≡ start.db.model_wallets)
    × ((execute_hold_in_escrow memory config hold_request user_env start).1.db.ledger_entries
        ≡ start.db.ledger_entries)
    × ((execute_hold_in_escrow memory config hold_request user_env start).1.db.idempotency_records
        ≡ start.db.idempotency_records)
hold_conflict_example =
    Conflict.hold_conflict memory config hold_request newer_wallet user_env start user_wallet
      user_env-Intervenes can_hold refl
