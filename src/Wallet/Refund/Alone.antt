-- ===== src/Wallet/Refund/Alone.antt =====
-- `refundEscrow` with no other request at work, on an escrow item that is held.
use red_room_rewards.Prelude.{
  suc, ◌+ℤ◌, String, ◌≡◌, refl, true, false, Option, none, some, is_empty,
}
use red_room_rewards.Domain.{refunding, is_held, EscrowRefundRequest, EscrowRefundResponse}
use red_room_rewards.Store.{Mongo, Db}
use red_room_rewards.Store.Docs.{Wallet, EscrowItem, LedgerEntry}
use red_room_rewards.Action.{Env, ok, alone, ◌>>=◌}
use red_room_rewards.Service.{State}
use red_room_rewards.Ledger.Pii.{pii_error}
use red_room_rewards.Ledger.Entries.{correlation_id, state_error}
use red_room_rewards.Ledger.Entries.Alone.{IsAdmissible, MakesIds, new_doc, create_entry_new}
use red_room_rewards.Ledger.Idempotency.Claims.{record_of, with_claim, claim_free}
use red_room_rewards.Wallet.Config.{Config}
use red_room_rewards.Wallet.Steps.{find_wallet, require_token, locked_or_throw}
use red_room_rewards.Wallet.Steps.Laws.{
  locked_item, update_wallet_current, lock_escrow_held, set_escrow_found,
}
use red_room_rewards.Wallet.Refund.{
  returned_wallet, refunded_item, refund_entry, record_refund, after_return, refund_locked,
  refund_escrow,
}

-- What a refund request needs of itself: metadata without personal data, and a reason.
pub record IsClean (r : EscrowRefundRequest) : Type 0 where
  pub clean : pii_error r.metadata ≡ none
  pub reason_given : is_empty r.reason ≡ false

module _ (M : Mongo) (cfg : Config) (r : EscrowRefundRequest) (e : Env (Db M)) where
  -- The database has the held item `x` and the wallet `u` of the request's user, and the ledger key
  -- is free. The item's own amount and user are not compared with the request's.
  pub record CanRefund (x : EscrowItem) (u : Wallet) (d : Db M) : Type 0 where
    pub item : M.escrow_items.get r.escrow_id d.escrow_items ≡ some x
    pub is : is_held x.status ≡ true
    pub user : M.wallets.get r.user_id d.wallets ≡ some u
    pub key_free : M.ledger_entries.get r.idempotency_key d.ledger_entries ≡ none

  module _ (u : Wallet) (w : State M) where
    -- The ledger document, with the clock of `w` at the transaction's identifier.
    abbrev pub refund_doc : LedgerEntry
    refund_doc =
        new_doc M cfg.ledger_currency (refund_entry cfg r (e.uuid w.clock) u) (e.uuid w.clock) e
          (record w { clock = suc w.clock })

    abbrev pub refund_response : EscrowRefundResponse
    refund_response = record {
      transaction_id = e.uuid w.clock;
      refunded_amount = r.amount;
      user_available_balance = u.available_balance +ℤ r.amount;
      timestamp = e.now (suc (suc (suc (suc w.clock))));
    }

    refund_entry-IsAdmissible :
        IsClean r
        → MakesIds e
        → IsAdmissible (refund_entry cfg r (e.uuid w.clock) u) (e.uuid w.clock)
    unfolding refund_entry state_error correlation_id
    refund_entry-IsAdmissible c ids = record {
      state = refl;
      clean = c.clean;
      transaction = refl;
      transaction_given = ids.given w.clock;
      transaction_shown = ids.shown w.clock;
      correlation = refl;
      reason_given = c.reason_given;
    }

  module _ (u updated : Wallet) (y : EscrowItem) (w : State M) where
    -- After the last write of the escrow item, which is `y` before it.
    abbrev pub finished : State M
    finished = record w {
      clock = suc w.clock;
      db = record w.db {
        escrow_items = M.escrow_items.put r.escrow_id (refunded_item y) w.db.escrow_items;
      };
    }

    abbrev pub recorded : Db M
    recorded = record finished.db {
      ledger_entries =
          M.ledger_entries.put r.idempotency_key (refund_doc u finished) w.db.ledger_entries;
    }

    pub record_refund_new :
        IsClean r
        → MakesIds e
        → M.ledger_entries.get r.idempotency_key w.db.ledger_entries ≡ none
        → M.escrow_items.get r.escrow_id w.db.escrow_items ≡ some y
        → ((record_refund M cfg r u updated (alone e) w).0 ≡ ok (refund_response u finished))
          × ((record_refund M cfg r u updated (alone e) w).1.db ≡ recorded)
    unfolding record_refund ◌>>=◌ refund_entry
    record_refund_new c ids free found =
        let entry =
          create_entry_new M cfg.ledger_currency (refund_entry cfg r (e.uuid finished.clock) u)
            (e.uuid finished.clock) e (record finished { clock = suc finished.clock })
            (refund_entry-IsAdmissible u finished c ids) free in
        rw (set_escrow_found M r.escrow_id w.db refunded_item y found) (rw entry (refl, refl))

  -- The user's wallet is updated.
  abbrev pub returned_world : Wallet → State M → State M
  returned_world u w = record w {
    clock = suc (suc w.clock);
    db = record w.db {
      wallets = M.wallets.put r.user_id (returned_wallet r.amount r.amount u) w.db.wallets;
    };
  }

  pub refund_locked_new :
      (u : Wallet) (w : State M)
      → M.wallets.get r.user_id w.db.wallets ≡ some u
      → refund_locked M cfg r (alone e) w
        ≡ record_refund M cfg r u
            (returned_wallet r.amount r.amount u)
            (alone e)
            (returned_world u w)
  unfolding refund_locked ◌>>=◌ find_wallet after_return
  refund_locked_new u w user =
      rw user
        (rw (update_wallet_current M r.user_id w.db (returned_wallet r.amount r.amount) u user))

  -- After the claim and the lock.
  abbrev pub locked_world : EscrowItem → State M → State M
  locked_world x w = record w {
    clock = suc (suc (suc (suc w.clock)));
    db = record (with_claim M r.idempotency_key "refund_escrow" none (e.now w.clock) w.db) {
      escrow_items =
          M.escrow_items.put r.escrow_id (locked_item refunding (e.now (suc (suc w.clock))) x)
            w.db.escrow_items;
    };
  }

  pub refund_claimed :
      (token : Option String) (x : EscrowItem) (w : State M)
      → require_token token ≡ ok tt
      → record_of M r.idempotency_key "refund_escrow" w.db ≡ none
      → M.escrow_items.get r.escrow_id w.db.escrow_items ≡ some x
      → is_held x.status ≡ true
      → refund_escrow M cfg r token (alone e) w ≡ refund_locked M cfg r (alone e) (locked_world x w)
  unfolding refund_escrow ◌>>=◌ locked_or_throw
  refund_claimed token x w given free found is = rw given (
      rw (claim_free M r.idempotency_key "refund_escrow" none e w free) (
        rw (
          lock_escrow_held M r.escrow_id
            (with_claim M r.idempotency_key "refund_escrow" none (e.now w.clock) w.db) refunding
            (e.now (suc (suc w.clock))) x found is)))
