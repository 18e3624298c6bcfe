-- ===== src/Wallet/Settle/Alone.antt =====
-- `settleEscrow` with no other request at work, on an escrow item that is held.
use red_room_rewards.Prelude.{
  suc, ◌+ℤ◌, String, ◌≡◌, refl, true, false, Option, none, some, is_empty,
}
use red_room_rewards.Domain.{settling, is_held, EscrowSettleRequest, EscrowSettleResponse}
use red_room_rewards.Store.{Mongo, Db}
use red_room_rewards.Store.Docs.{Wallet, ModelWallet, EscrowItem, LedgerEntry}
use red_room_rewards.Action.{Env, ok, alone, ◌>>=◌}
use red_room_rewards.Service.{State}
use red_room_rewards.Ledger.Pii.{pii_error}
use red_room_rewards.Ledger.Entries.{correlation_id, state_error}
use red_room_rewards.Ledger.Entries.Alone.{IsAdmissible, new_doc, create_entry_new, MakesIds}
use red_room_rewards.Ledger.Idempotency.Claims.{record_of, with_claim, claim_free}
use red_room_rewards.Wallet.Config.{Config}
use red_room_rewards.Wallet.Steps.{
  find_wallet, find_model_wallet, get_or_create_model_wallet, or_create_model_wallet, require_token,
  locked_or_throw,
}
use red_room_rewards.Wallet.Steps.Laws.{
  locked_item, update_wallet_current, update_model_wallet_current, lock_escrow_held,
  set_escrow_found,
}
use red_room_rewards.Wallet.Settle.{
  credited_model, released_wallet, settled_item, earned_entry, record_settlement, after_release,
  settle_locked, settle_escrow,
}

-- What a settlement request needs of itself: metadata without personal data, and a reason.
pub record IsClean (r : EscrowSettleRequest) : Type 0 where
  pub clean : pii_error r.metadata ≡ none
  pub reason_given : is_empty r.reason ≡ false

module _ (M : Mongo) (cfg : Config) (r : EscrowSettleRequest) (e : Env (Db M)) where
  -- The database has the held item `x`, the wallet `u` of its user and the model's wallet `m`, and
  -- the ledger key is free.
  pub record CanSettle (x : EscrowItem) (u : Wallet) (m : ModelWallet) (d : Db M) : Type 0 where
    pub item : M.escrow_items.get r.escrow_id d.escrow_items ≡ some x
    pub is : is_held x.status ≡ true
    pub user : M.wallets.get x.user_id d.wallets ≡ some u
    pub model : M.model_wallets.get r.model_id d.model_wallets ≡ some m
    pub key_free : M.ledger_entries.get r.idempotency_key d.ledger_entries ≡ none

  module _ (m : ModelWallet) (w : State M) where
    -- The ledger document, with the clock of `w` at the transaction's identifier.
    abbrev pub earned_doc : LedgerEntry
    earned_doc =
        new_doc M cfg.ledger_currency (earned_entry cfg r (e.uuid w.clock) m) (e.uuid w.clock) e
          (record w { clock = suc w.clock })

    abbrev pub settle_response : EscrowSettleResponse
    settle_response = record {
      transaction_id = e.uuid w.clock;
      settled_amount = r.amount;
      model_earned_balance = m.earned_balance +ℤ r.amount;
      timestamp = e.now (suc (suc (suc (suc w.clock))));
    }

    earned_entry-IsAdmissible :
        IsClean r
        → MakesIds e
        → IsAdmissible (earned_entry cfg r (e.uuid w.clock) m) (e.uuid w.clock)
    unfolding earned_entry state_error correlation_id
    earned_entry-IsAdmissible c ids = record {
      state = refl;
      clean = c.clean;
      transaction = refl;
      transaction_given = ids.given w.clock;
      transaction_shown = ids.shown w.clock;
      correlation = refl;
      reason_given = c.reason_given;
    }

  module _ (x : EscrowItem) (m : ModelWallet) (y : EscrowItem) (w : State M) where
    -- After the last write of the escrow item, which is `y` before it.
    abbrev pub finished : State M
    finished = record w {
      clock = suc w.clock;
      db = record w.db {
        escrow_items = M.escrow_items.put r.escrow_id (settled_item r.model_id y) w.db.escrow_items;
      };
    }

    abbrev pub recorded : Db M
    recorded = record finished.db {
      ledger_entries =
          M.ledger_entries.put r.idempotency_key (earned_doc m finished) w.db.ledger_entries;
    }

    pub record_settlement_new :
        IsClean r
        → MakesIds e
        → M.ledger_entries.get r.idempotency_key w.db.ledger_entries ≡ none
        → M.escrow_items.get r.escrow_id w.db.escrow_items ≡ some y
        → ((record_settlement M cfg r x m (alone e) w).0 ≡ ok (settle_response m finished))
          × ((record_settlement M cfg r x m (alone e) w).1.db ≡ recorded)
    unfolding record_settlement ◌>>=◌ earned_entry
    record_settlement_new c ids free found =
        let entry =
          create_entry_new M cfg.ledger_currency (earned_entry cfg r (e.uuid finished.clock) m)
            (e.uuid finished.clock) e (record finished { clock = suc finished.clock })
            (earned_entry-IsAdmissible m finished c ids) free in
        rw (set_escrow_found M r.escrow_id w.db (settled_item r.model_id) y found)
          (rw entry (refl, refl))

  -- Both wallets are updated.
  abbrev pub moved_world : EscrowItem → Wallet → ModelWallet → State M → State M
  moved_world x u m w = record w {
    clock = suc (suc (suc (suc w.clock)));
    db = record w.db {
      model_wallets =
          M.model_wallets.put r.model_id (credited_model r.amount m m) w.db.model_wallets;
      wallets = M.wallets.put x.user_id (released_wallet r.amount u) w.db.wallets;
    };
  }

  pub settle_locked_new :
      (x : EscrowItem) (u : Wallet) (m : ModelWallet) (w : State M)
      → M.wallets.get x.user_id w.db.wallets ≡ some u
      → M.model_wallets.get r.model_id w.db.model_wallets ≡ some m
      → settle_locked M cfg r x (alone e) w
        ≡ record_settlement M cfg r x m (alone e) (moved_world x u m w)
  unfolding settle_locked ◌>>=◌ get_or_create_model_wallet or_create_model_wallet find_model_wallet
      find_wallet after_release
  settle_locked_new x u m w user model = rw model (
      rw (update_model_wallet_current M r.model_id w.db (credited_model r.amount m) m model) (
        rw user (
          rw (
            update_wallet_current M x.user_id
              (record w.db {
                model_wallets =
                    M.model_wallets.put r.model_id (credited_model r.amount m m) w.db.model_wallets;
              })
              (released_wallet r.amount) u user))))

  -- After the claim and the lock.
  abbrev pub locked_world : EscrowItem → State M → State M
  locked_world x w = record w {
    clock = suc (suc (suc (suc w.clock)));
    db = record (with_claim M r.idempotency_key "settle_escrow" none (e.now w.clock) w.db) {
      escrow_items =
          M.escrow_items.put r.escrow_id (locked_item settling (e.now (suc (suc w.clock))) x)
            w.db.escrow_items;
    };
  }

  pub settle_claimed :
      (token : Option String) (x : EscrowItem) (w : State M)
      → require_token token ≡ ok tt
      → record_of M r.idempotency_key "settle_escrow" w.db ≡ none
      → M.escrow_items.get r.escrow_id w.db.escrow_items ≡ some x
      → is_held x.status ≡ true
      → settle_escrow M cfg r token (alone e) w
        ≡ settle_locked M cfg r x (alone e) (locked_world x w)
  unfolding settle_escrow ◌>>=◌ locked_or_throw
  settle_claimed token x w given free found is = rw given (
      rw (claim_free M r.idempotency_key "settle_escrow" none e w free) (
        rw (
          lock_escrow_held M r.escrow_id
            (with_claim M r.idempotency_key "settle_escrow" none (e.now w.clock) w.db) settling
            (e.now (suc (suc w.clock))) x found is)))
