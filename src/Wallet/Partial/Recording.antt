-- ===== src/Wallet/Partial/Recording.antt =====
-- What `partialSettleEscrow` that runs alone records after it has updated both wallets.
use red_room_rewards.Prelude.{
  int_laws, ℕ, suc, pos, ◌+ℤ◌, ◌<ℤ◌, String, ◌≡◌, ◌∙◌, ◌≢◌, refl, sym, none, some, suffixed,
  suffixed-ne, texts-differ,
}
use red_room_rewards.Domain.{
  credit, available, earned, EscrowPartialSettleRequest, EscrowPartialSettleResponse,
}
use red_room_rewards.Store.{Mongo, Db}
use red_room_rewards.Store.Docs.{Wallet, ModelWallet, EscrowItem}
use red_room_rewards.Action.{Env, ok, alone, ◌>>=◌}
use red_room_rewards.Service.{State}
use red_room_rewards.Ledger.Entries.{correlation_id, state_error, entry_doc}
use red_room_rewards.Ledger.Entries.Posts.{Posted}
use red_room_rewards.Ledger.Entries.Alone.{IsAdmissible, MakesIds}
use red_room_rewards.Wallet.Config.{Config}
use red_room_rewards.Wallet.Steps.Laws.{set_escrow_found}
use red_room_rewards.Wallet.Settle.{settled_item}
use red_room_rewards.Wallet.Partial.{refund_part_entry, settle_part_entry, record_partial}
use red_room_rewards.Wallet.Partial.Alone.{IsClean, Recorded, entry_if_positive_new}

module _ (M : Mongo) (cfg : Config) (r : EscrowPartialSettleRequest) (e : Env (Db M)) where
  refund_part-IsAdmissible :
      (n : ℕ) (u : Wallet)
      → IsClean r
      → MakesIds e
      → IsAdmissible (refund_part_entry cfg r (e.uuid n) u) (e.uuid n)
  unfolding refund_part_entry state_error correlation_id
  refund_part-IsAdmissible n u c ids = record {
    state = refl;
    clean = c.clean;
    transaction = refl;
    transaction_given = ids.given n;
    transaction_shown = ids.shown n;
    correlation = refl;
    reason_given = c.reason_given;
  }

  settle_part-IsAdmissible :
      (n : ℕ) (m : ModelWallet)
      → IsClean r
      → MakesIds e
      → IsAdmissible (settle_part_entry cfg r (e.uuid n) m) (e.uuid n)
  unfolding settle_part_entry state_error correlation_id
  settle_part-IsAdmissible n m c ids = record {
    state = refl;
    clean = c.clean;
    transaction = refl;
    transaction_given = ids.given n;
    transaction_shown = ids.shown n;
    correlation = refl;
    reason_given = c.reason_given;
  }

  -- The two keys of the ledger entries are free.
  pub record KeysFree (d : Db M) : Type 0 where
    pub refund_free :
        M.ledger_entries.get (suffixed r.idempotency_key "_refund") d.ledger_entries ≡ none
    pub settle_free :
        M.ledger_entries.get (suffixed r.idempotency_key "_settle") d.ledger_entries ≡ none

  abbrev pub partial_response : Wallet → ModelWallet → String → ℕ → EscrowPartialSettleResponse
  partial_response u m transaction timestamp = record {
    transaction_id = transaction;
    refunded_amount = r.refund_amount;
    settled_amount = r.settle_amount;
    user_available_balance = u.available_balance +ℤ r.refund_amount;
    model_earned_balance = m.earned_balance +ℤ r.settle_amount;
    timestamp = timestamp;
  }

  -- What recording a partial settlement does: the answer, the ledger's entries and the item.
  pub record Finished (u : Wallet) (m : ModelWallet) (updated : Wallet) (y : EscrowItem)
      (w : State M) : Type 0 where
    pub timestamp : ℕ
    pub entries : M.ledger_entries.Docs
    pub result :
        (record_partial M cfg r u m updated (alone e) w).0
        ≡ ok (partial_response u m (e.uuid (suc w.clock)) timestamp)
    pub left : (record_partial M cfg r u m updated (alone e) w).1.db ≡ record w.db {
      escrow_items = M.escrow_items.put r.escrow_id (settled_item r.model_id y) w.db.escrow_items;
      ledger_entries = entries;
    }
    pub refund_written :
        pos 0 <ℤ r.refund_amount
        → Posted M
            (record w.db { ledger_entries = entries })
            (suffixed r.idempotency_key "_refund")
            r.user_id
            available
            credit
            u.available_balance
            r.refund_amount
            (e.uuid (suc w.clock))
    pub settle_written :
        pos 0 <ℤ r.settle_amount
        → Posted M
            (record w.db { ledger_entries = entries })
            (suffixed r.idempotency_key "_settle")
            r.model_id
            earned
            credit
            m.earned_balance
            r.settle_amount
            (e.uuid (suc w.clock))

  apart : suffixed r.idempotency_key "_settle" ≢ suffixed r.idempotency_key "_refund"
  apart = suffixed-ne r.idempotency_key "_settle" "_refund" (texts-differ "_settle" "_refund" refl)

  pub record_partial_new :
      (u : Wallet) (m : ModelWallet) (updated : Wallet) (y : EscrowItem) (w : State M)
      → IsClean r
      → MakesIds e
      → KeysFree w.db
      → M.escrow_items.get r.escrow_id w.db.escrow_items ≡ some y
      → Finished u m updated y w
  unfolding record_partial ◌>>=◌ entry_doc refund_part_entry settle_part_entry
  record_partial_new u m updated y w c ids free found =
      let t = e.uuid (suc w.clock) in
      let start : State M = record w {
        clock = suc (suc w.clock);
        db = record w.db {
          escrow_items =
              M.escrow_items.put r.escrow_id (settled_item r.model_id y) w.db.escrow_items;
        };
      } in
      let first : Recorded M cfg e (refund_part_entry cfg r t u) t start =
        entry_if_positive_new M cfg e (refund_part_entry cfg r t u) t start
          (refund_part-IsAdmissible (suc w.clock) u c ids) free.refund_free in
      let between : State M = record start {
        clock = first.clock;
        db = record start.db { ledger_entries = first.entries };
      } in
      let second : Recorded M cfg e (settle_part_entry cfg r t m) t between =
        entry_if_positive_new M cfg e (settle_part_entry cfg r t m) t between
          (settle_part-IsAdmissible (suc w.clock) m c ids)
          (first.others (suffixed r.idempotency_key "_settle") apart ∙ free.settle_free) in
      record {
        timestamp = e.now second.clock;
        entries = second.entries;
        result =
            rw (set_escrow_found M r.escrow_id w.db (settled_item r.model_id) y found)
              (rw first.run (rw second.run refl));
        left =
            rw (set_escrow_found M r.escrow_id w.db (settled_item r.model_id) y found)
              (rw first.run (rw second.run refl));
        refund_written = λ h. (
          _,
          second.others (suffixed r.idempotency_key "_refund") (λ p. apart (sym p))
              ∙ first.written h,
          record {
            of_account = refl;
            of_state = refl;
            of_type = refl;
            moved = refl;
            was = refl;
            is = omega int_laws;
            within = refl;
          },
        );
        settle_written = λ h. (
          _,
          second.written h,
          record {
            of_account = refl;
            of_state = refl;
            of_type = refl;
            moved = refl;
            was = refl;
            is = omega int_laws;
            within = refl;
          },
        );
      }
