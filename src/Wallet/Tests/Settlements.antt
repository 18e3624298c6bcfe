-- ===== src/Wallet/Tests/Settlements.antt =====
-- Runs of `settleEscrow`.
use red_room_rewards.Prelude.{◌+ℤ◌, suc, pos, ◌≡◌, refl, none, some, ◌==◌, if◌then◌else◌}
use red_room_rewards.Domain.{held, settling, optimistic_lock, user_wallet_not_found}
use red_room_rewards.Store.{Db}
use red_room_rewards.Store.Docs.{Wallet, EscrowItem}
use red_room_rewards.Store.Memory.{memory}
use red_room_rewards.Action.{Env, ok, err, alone}
use red_room_rewards.Service.{State}
use red_room_rewards.Ledger.Pii.{pii_error}
use red_room_rewards.Wallet.Steps.{require_token}
use red_room_rewards.Wallet.Steps.Laws.{locked_item}
use red_room_rewards.Wallet.Settle.{settled_item, settle_locked, settle_escrow}
use red_room_rewards.Wallet.Settle.Alone.{IsClean, CanSettle, settle_response}
use red_room_rewards.Wallet.Settle.Effects.{IsSettled, at_end, settle_effects}
use red_room_rewards.Wallet.Settle.Failures.{Intervenes, settle_conflict, settle_without_user}
use red_room_rewards.Wallet.Tests.{
  config, env, env-MakesIds, user_wallet, model_wallet, held_escrow, start, no_user, settle_request,
  token,
}

token-given : require_token token ≡ ok tt
unfolding require_token
token-given = refl

clean : IsClean settle_request
unfolding pii_error
clean = record { clean = refl; reason_given = refl }

can_settle :
    CanSettle memory config settle_request env held_escrow user_wallet model_wallet start.db
can_settle = record { item = refl; is = refl; user = refl; model = refl; key_free = refl }

settle_effects_example :
    ((settle_escrow memory config settle_request token (alone env) start).0
      ≡ ok (
          settle_response memory config settle_request env model_wallet
            (at_end memory config settle_request env held_escrow user_wallet model_wallet start)))
    × IsSettled memory config settle_request env held_escrow user_wallet model_wallet start
        (settle_escrow memory config settle_request token (alone env) start).1.db
settle_effects_example =
    settle_effects memory config settle_request env token held_escrow user_wallet model_wallet start
      token-given clean env-MakesIds refl can_settle

-- The item has been settled.
abbrev settled_escrow : EscrowItem
settled_escrow = settled_item "mia" (locked_item settling 7 held_escrow)

abbrev after_settlement : State memory
after_settlement = record start {
  db = record start.db {
    escrow_items = memory.escrow_items.put "e1" settled_escrow start.db.escrow_items;
  };
}

abbrev newer_wallet : Wallet
newer_wallet = record user_wallet { available_balance = pos 4000; version = 4 }

-- Another request spends a point of the user's between the read and the update.
abbrev busy_env : Env (Db memory)
busy_env = record env {
  others = λ n d.
      if n == 3 then record d { wallets = memory.wallets.put "ann" newer_wallet d.wallets } else d;
}

busy_env-Intervenes :
    Intervenes memory config settle_request held_escrow start newer_wallet busy_env
busy_env-Intervenes = record {
  first = λ d. refl;
  second = λ d. refl;
  third = λ d. refl;
  fourth = λ d. refl;
  fifth = λ d. refl;
}

settle_conflict_example :
    let (result, w') = settle_locked memory config settle_request held_escrow busy_env start in
    (result ≡ err (optimistic_lock "wallet" "ann"))
    × (memory.model_wallets.get "mia" w'.db.model_wallets
        ≡ some (record model_wallet {
          earned_balance = model_wallet.earned_balance +ℤ pos 2000;
          version = suc model_wallet.version;
        }))
    × (memory.wallets.get "ann" w'.db.wallets ≡ some newer_wallet)
    × (memory.escrow_items.get "e1" w'.db.escrow_items
        ≡ some (record held_escrow { status = held; processed_at = none }))
settle_conflict_example =
    settle_conflict memory config settle_request held_escrow start user_wallet newer_wallet
      model_wallet held_escrow busy_env busy_env-Intervenes refl refl refl refl

settle_without_user_example :
    let (result, w') = settle_escrow memory config settle_request token (alone env) no_user in
    (result ≡ err user_wallet_not_found)
    × (memory.model_wallets.get "mia" w'.db.model_wallets
        ≡ some (record model_wallet {
          earned_balance = model_wallet.earned_balance +ℤ pos 2000;
          version = suc model_wallet.version;
        }))
    × (memory.escrow_items.get "e1" w'.db.escrow_items
        ≡ some (record held_escrow {
          status = settling;
          processed_at = some (env.now (suc (suc no_user.clock)));
        }))
settle_without_user_example =
    settle_without_user memory config settle_request env token held_escrow model_wallet no_user
      token-given refl refl refl refl refl
