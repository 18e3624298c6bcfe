-- ===== src/Wallet/Settle/Effects.antt =====
-- The effects and the refusals of a settlement that runs alone.
use red_room_rewards.Prelude.{
  suc, ◌+ℤ◌, ◌-ℤ◌, int_laws, String, ◌≡◌, ◌≢◌, ◌∙◌, refl, Option, none, some,
}
use red_room_rewards.Domain.{credit, settling, settled, earned, EscrowSettleRequest}
use red_room_rewards.Store.{Mongo, Db}
use red_room_rewards.Store.Docs.{Wallet, ModelWallet, EscrowItem}
use red_room_rewards.Action.{Env, ok, alone}
use red_room_rewards.Service.{State}
use red_room_rewards.Ledger.Entries.{entry_doc}
use red_room_rewards.Ledger.Entries.Posts.{Posted}
use red_room_rewards.Ledger.Entries.Alone.{MakesIds}
use red_room_rewards.Ledger.Idempotency.Claims.{IsClaimed, with_claim-IsClaimed, record_of}
use red_room_rewards.Wallet.Config.{Config}
use red_room_rewards.Wallet.Steps.{require_token}
use red_room_rewards.Wallet.Steps.Laws.{locked_item}
use red_room_rewards.Wallet.Settle.{earned_entry, credited_model, released_wallet, settle_escrow}
use red_room_rewards.Wallet.Settle.Alone.{
  IsClean, CanSettle, earned_doc, settle_response, finished, record_settlement_new, moved_world,
  settle_locked_new, locked_world, settle_claimed,
}

module _ (M : Mongo) (cfg : Config) (r : EscrowSettleRequest) (e : Env (Db M)) where
  -- The locked item, and the state in which the settlement is recorded.
  abbrev pub item_before : EscrowItem → State M → EscrowItem
  item_before x w = locked_item settling (e.now (suc (suc w.clock))) x

  abbrev pub before_record : EscrowItem → Wallet → ModelWallet → State M → State M
  before_record x u m w = moved_world M cfg r e x u m (locked_world M cfg r e x w)

  -- The state in which the transaction gets its identifier.
  abbrev pub at_end : EscrowItem → Wallet → ModelWallet → State M → State M
  at_end x u m w = finished M cfg r e x m (item_before x w) (before_record x u m w)

  -- What a settlement of the item `x` leaves in the database `d'`.
  pub record IsSettled (x : EscrowItem) (u : Wallet) (m : ModelWallet) (w : State M) (d' : Db M)
      : Type 0 where
    pub item :
        M.escrow_items.get r.escrow_id d'.escrow_items
        ≡ some (record x {
          status = settled;
          processed_at = some (e.now (suc (suc w.clock)));
          model_id = some r.model_id;
        })
    pub user :
        M.wallets.get x.user_id d'.wallets
        ≡ some (record u { escrow_balance = u.escrow_balance -ℤ r.amount; version = suc u.version })
    pub model :
        M.model_wallets.get r.model_id d'.model_wallets
        ≡ some (record m { earned_balance = m.earned_balance +ℤ r.amount; version = suc m.version })
    pub entry :
        Posted M d' r.idempotency_key r.model_id earned credit m.earned_balance r.amount
          (e.uuid (at_end x u m w).clock)
    pub other_wallets :
        (j : String) → j ≢ x.user_id → M.wallets.get j d'.wallets ≡ M.wallets.get j w.db.wallets
    pub other_models :
        (j : String)
        → j ≢ r.model_id
        → M.model_wallets.get j d'.model_wallets ≡ M.model_wallets.get j w.db.model_wallets
    pub other_entries :
        (k : String)
        → k ≢ r.idempotency_key
        → M.ledger_entries.get k d'.ledger_entries ≡ M.ledger_entries.get k w.db.ledger_entries
    pub other_items :
        (j : String)
        → j ≢ r.escrow_id
        → M.escrow_items.get j d'.escrow_items ≡ M.escrow_items.get j w.db.escrow_items
    pub claimed : IsClaimed M r.idempotency_key "settle_escrow" w.db d'

  -- With an authorization token, metadata without personal data, a reason, a free idempotency key,
  -- a held escrow item, the wallets of its user and of the model, and a free ledger key, a
  -- settlement that runs alone returns the model's new balance, takes the request's amount from
  -- the user's escrow balance, adds it to the model's earned balance, marks the item as settled
  -- for the model, writes one ledger entry, the model's credit, and a record of its idempotency
  -- key. No other wallet, escrow item, ledger entry or record changes.
  pub settle_effects :
      (token : Option String) (x : EscrowItem) (u : Wallet) (m : ModelWallet) (w : State M)
      → require_token token ≡ ok tt
      → IsClean r
      → MakesIds e
      → record_of M r.idempotency_key "settle_escrow" w.db ≡ none
      → CanSettle M cfg r e x u m w.db
      → ((settle_escrow M cfg r token (alone e) w).0
          ≡ ok (settle_response M cfg r e m (at_end x u m w)))
        × IsSettled x u m w (settle_escrow M cfg r token (alone e) w).1.db
  unfolding released_wallet credited_model earned_entry entry_doc
  settle_effects token x u m w given c ids free can =
      let start = settle_claimed M cfg r e token x w given free can.item can.is in
      let middle =
        settle_locked_new M cfg r e x u m (locked_world M cfg r e x w) can.user can.model in
      let (result, left) =
        record_settlement_new M cfg r e x m (item_before x w) (before_record x u m w) c ids
          can.key_free
          (M.escrow_items.get-put_self r.escrow_id (item_before x w) w.db.escrow_items) in
      rw start (
        rw middle (
          result,
          rw left (record {
            item = M.escrow_items.get-put_self _ _ _;
            user = M.wallets.get-put_self _ _ w.db.wallets;
            model = M.model_wallets.get-put_self _ _ w.db.model_wallets;
            entry = (
              earned_doc M cfg r e m (at_end x u m w),
              M.ledger_entries.get-put_self _ _ w.db.ledger_entries,
              record {
                of_account = refl;
                of_state = refl;
                of_type = refl;
                moved = refl;
                was = refl;
                is = omega int_laws;
                within = refl;
              },
            );
            other_wallets = λ j ne. M.wallets.get-put_ne j _ _ w.db.wallets ne;
            other_models = λ j ne. M.model_wallets.get-put_ne j _ _ w.db.model_wallets ne;
            other_entries = λ k ne. M.ledger_entries.get-put_ne k _ _ w.db.ledger_entries ne;
            other_items = λ j ne.
                M.escrow_items.get-put_ne j _ _ _ ne
                ∙ M.escrow_items.get-put_ne j _ _ w.db.escrow_items ne;
            claimed =
                with_claim-IsClaimed M r.idempotency_key "settle_escrow" none (e.now w.clock) w.db _
                  refl;
          }),
        ))
