-- ===== src/Wallet/Tests/Refunds.antt =====
-- Runs of `refundEscrow`.
use red_room_rewards.Prelude.{◌≡◌, refl}
use red_room_rewards.Domain.{settling}
use red_room_rewards.Store.Docs.{EscrowItem}
use red_room_rewards.Store.Memory.{memory, empty_db}
use red_room_rewards.Action.{ok, alone}
use red_room_rewards.Service.{State}
use red_room_rewards.Ledger.Pii.{pii_error}
use red_room_rewards.Wallet.Steps.{require_token}
use red_room_rewards.Wallet.Steps.Laws.{locked_item}
use red_room_rewards.Wallet.Settle.{settled_item}
use red_room_rewards.Wallet.Refund.{refund_escrow}
use red_room_rewards.Wallet.Refund.Alone.{IsClean, CanRefund, refund_response}
use red_room_rewards.Wallet.Refund.Effects.{IsRefunded, at_end, refund_effects}
use red_room_rewards.Wallet.Tests.{
  config, env, env-MakesIds, user_wallet, held_escrow, start, refund_request, token,
}

token-given : require_token token ≡ ok tt
unfolding require_token
token-given = refl

clean : IsClean refund_request
unfolding pii_error
clean = record { clean = refl; reason_given = refl }

can_refund : CanRefund memory config refund_request env held_escrow user_wallet start.db
can_refund = record { item = refl; is = refl; user = refl; key_free = refl }

refund_effects_example :
    ((refund_escrow memory config refund_request token (alone env) start).0
      ≡ ok (
          refund_response memory config refund_request env user_wallet
            (at_end memory config refund_request env held_escrow user_wallet start)))
    × IsRefunded memory config refund_request env held_escrow user_wallet start
        (refund_escrow memory config refund_request token (alone env) start).1.db
refund_effects_example =
    refund_effects memory config refund_request env token held_escrow user_wallet start token-given
      clean env-MakesIds refl can_refund

-- The item has been settled.
abbrev settled_escrow : EscrowItem
settled_escrow = settled_item "mia" (locked_item settling 7 held_escrow)

abbrev after_settlement : State memory
after_settlement = record start {
  db = record start.db {
    escrow_items = memory.escrow_items.put "e1" settled_escrow start.db.escrow_items;
  };
}

abbrev no_escrow : State memory
no_escrow = record start { db = empty_db }
