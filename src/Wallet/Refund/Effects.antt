-- ===== src/Wallet/Refund/Effects.antt =====
-- The effects and the refusals of a refund that runs alone.
use red_room_rewards.Prelude.{
  suc, ◌+ℤ◌, ◌-ℤ◌, int_laws, String, ◌≡◌, ◌≢◌, ◌∙◌, refl, Option, none, some,
}
use red_room_rewards.Domain.{credit, refunding, refunded, available, EscrowRefundRequest}
use red_room_rewards.Store.{Mongo, Db}
use red_room_rewards.Store.Docs.{Wallet, EscrowItem}
use red_room_rewards.Action.{Env, ok, alone}
use red_room_rewards.Service.{State}
use red_room_rewards.Ledger.Entries.{entry_doc}
use red_room_rewards.Ledger.Entries.Posts.{Posted}
use red_room_rewards.Ledger.Entries.Alone.{MakesIds}
use red_room_rewards.Ledger.Idempotency.Claims.{IsClaimed, with_claim-IsClaimed, record_of}
use red_room_rewards.Wallet.Config.{Config}
use red_room_rewards.Wallet.Steps.{require_token}
use red_room_rewards.Wallet.Steps.Laws.{locked_item}
use red_room_rewards.Wallet.Refund.{refund_entry, returned_wallet, refund_escrow}
use red_room_rewards.Wallet.Refund.Alone.{
  IsClean, CanRefund, refund_doc, refund_response, finished, record_refund_new, returned_world,
  refund_locked_new, locked_world, refund_claimed,
}

module _ (M : Mongo) (cfg : Config) (r : EscrowRefundRequest) (e : Env (Db M)) where
  abbrev pub item_before : EscrowItem → State M → EscrowItem
  item_before x w = locked_item refunding (e.now (suc (suc w.clock))) x

  abbrev pub before_record : EscrowItem → Wallet → State M → State M
  before_record x u w = returned_world M cfg r e u (locked_world M cfg r e x w)

  -- The state in which the transaction gets its identifier.
  abbrev pub at_end : EscrowItem → Wallet → State M → State M
  at_end x u w =
      finished M cfg r e u (returned_wallet r.amount r.amount u) (item_before x w)
        (before_record x u w)

  -- What a refund of the item `x` leaves in the database `d'`.
  pub record IsRefunded (x : EscrowItem) (u : Wallet) (w : State M) (d' : Db M) : Type 0 where
    pub item :
        M.escrow_items.get r.escrow_id d'.escrow_items
        ≡ some (record x { status = refunded; processed_at = some (e.now (suc (suc w.clock))) })
    pub user :
        M.wallets.get r.user_id d'.wallets
        ≡ some (record u {
          available_balance = u.available_balance +ℤ r.amount;
          escrow_balance = u.escrow_balance -ℤ r.amount;
          version = suc u.version;
        })
    pub entry :
        Posted M d' r.idempotency_key r.user_id available credit u.available_balance r.amount
          (e.uuid (at_end x u w).clock)
    pub other_wallets :
        (j : String) → j ≢ r.user_id → M.wallets.get j d'.wallets ≡ M.wallets.get j w.db.wallets
    pub model_wallets : d'.model_wallets ≡ w.db.model_wallets
    pub other_entries :
        (k : String)
        → k ≢ r.idempotency_key
        → M.ledger_entries.get k d'.ledger_entries ≡ M.ledger_entries.get k w.db.ledger_entries
    pub other_items :
        (j : String)
        → j ≢ r.escrow_id
        → M.escrow_items.get j d'.escrow_items ≡ M.escrow_items.get j w.db.escrow_items
    pub claimed : IsClaimed M r.idempotency_key "refund_escrow" w.db d'

  -- With an authorization token, metadata without personal data, a reason, a free idempotency key,
  -- a held escrow item, a wallet of the request's user and a free ledger key, a refund that runs
  -- alone moves the request's amount from that user's escrow balance to the available one, marks
  -- the item as refunded, and writes one ledger entry, the user's credit, and a record of its
  -- idempotency key. No other wallet, escrow item, ledger entry or record changes. The amount and
  -- the user are the request's, whatever those of the item are.
  pub refund_effects :
      (token : Option String) (x : EscrowItem) (u : Wallet) (w : State M)
      → require_token token ≡ ok tt
      → IsClean r
      → MakesIds e
      → record_of M r.idempotency_key "refund_escrow" w.db ≡ none
      → CanRefund M cfg r e x u w.db
      → ((refund_escrow M cfg r token (alone e) w).0
          ≡ ok (refund_response M cfg r e u (at_end x u w)))
        × IsRefunded x u w (refund_escrow M cfg r token (alone e) w).1.db
  unfolding returned_wallet refund_entry entry_doc
  refund_effects token x u w given c ids free can =
      let start = refund_claimed M cfg r e token x w given free can.item can.is in
      let middle = refund_locked_new M cfg r e u (locked_world M cfg r e x w) can.user in
      let (result, left) =
        record_refund_new M cfg r e u (returned_wallet r.amount r.amount u) (item_before x w)
          (before_record x u w) c ids can.key_free
          (M.escrow_items.get-put_self r.escrow_id (item_before x w) w.db.escrow_items) in
      rw start (
        rw middle (
          result,
          rw left (record {
            item = M.escrow_items.get-put_self _ _ _;
            user = M.wallets.get-put_self _ _ w.db.wallets;
            entry = (
              refund_doc M cfg r e u (at_end x u w),
              M.ledger_entries.get-put_self _ _ w.db.ledger_entries,
              record {
                of_account = refl;
                of_state = refl;
                of_type = refl;
                moved = refl;
                was = refl;
                is = omega int_laws;
                within = refl;
              },
            );
            other_wallets = λ j ne. M.wallets.get-put_ne j _ _ w.db.wallets ne;
            model_wallets = refl;
            other_entries = λ k ne. M.ledger_entries.get-put_ne k _ _ w.db.ledger_entries ne;
            other_items = λ j ne.
                M.escrow_items.get-put_ne j _ _ _ ne
                ∙ M.escrow_items.get-put_ne j _ _ w.db.escrow_items ne;
            claimed =
                with_claim-IsClaimed M r.idempotency_key "refund_escrow" none (e.now w.clock) w.db _
                  refl;
          }),
        ))
