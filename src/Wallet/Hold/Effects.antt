-- ===== src/Wallet/Hold/Effects.antt =====
-- The effects and the refusals of a hold that runs alone.
use red_room_rewards.Prelude.{
  ℕ, suc, String, ◌≡◌, ◌∙◌, ◌≢◌, refl, none, some, suffixed, suffixed-ne, texts-differ, int_laws,
  ◌+ℤ◌, ◌-ℤ◌, neg_ℤ,
}
use red_room_rewards.Domain.{debit, credit, held, available, escrow, EscrowHoldRequest}
use red_room_rewards.Store.{Mongo, Db}
use red_room_rewards.Store.Docs.{Wallet, EscrowItem}
use red_room_rewards.Action.{Env, ok, alone}
use red_room_rewards.Service.{State}
use red_room_rewards.Ledger.Idempotency.Claims.{record_of, IsClaimed, with_claim-IsClaimed}
use red_room_rewards.Ledger.Entries.{entry_doc}
use red_room_rewards.Ledger.Entries.Posts.{Posted}
use red_room_rewards.Ledger.Entries.Alone.{MakesIds}
use red_room_rewards.Wallet.Config.{Config}
use red_room_rewards.Wallet.Hold.{held_item, held_wallet, debit_entry, credit_entry, hold_in_escrow}
use red_room_rewards.Wallet.Hold.Alone.{IsClean, hold_response, debit_doc, credit_doc}
use red_room_rewards.Wallet.Hold.Run.{CanHold, new_escrow_id, before_entries, hold_new}

module _ (M : Mongo) (cfg : Config) (r : EscrowHoldRequest) (e : Env (Db M)) where
  -- What a hold from the wallet `x` leaves in the database `d'`, where it found `d`.
  pub record IsHeld (x : Wallet) (w : State M) (d' : Db M) : Type 0 where
    pub wallet :
        M.wallets.get r.user_id d'.wallets
        ≡ some (record x {
          available_balance = x.available_balance -ℤ r.amount;
          escrow_balance = x.escrow_balance +ℤ r.amount;
          version = suc x.version;
        })
    pub item :
        (y : EscrowItem) × (M.escrow_items.get (new_escrow_id M cfg r e w) d'.escrow_items ≡ some y)
        × (y.status ≡ held)
        × (y.amount ≡ r.amount)
        × (y.user_id ≡ r.user_id)
        × (y.queue_item_id ≡ r.queue_item_id)
    pub debit_posted :
        Posted M d'
          (suffixed r.idempotency_key "_debit")
          r.user_id
          available
          debit
          x.available_balance
          (neg_ℤ r.amount)
          (e.uuid (before_entries M cfg r e x w).clock)
    pub credit_posted :
        Posted M d'
          (suffixed r.idempotency_key "_credit")
          r.user_id
          escrow
          credit
          x.escrow_balance
          r.amount
          (e.uuid (before_entries M cfg r e x w).clock)
    pub other_wallets :
        (j : String) → j ≢ r.user_id → M.wallets.get j d'.wallets ≡ M.wallets.get j w.db.wallets
    pub model_wallets : d'.model_wallets ≡ w.db.model_wallets
    pub other_items :
        (j : String)
        → j ≢ new_escrow_id M cfg r e w
        → M.escrow_items.get j d'.escrow_items ≡ M.escrow_items.get j w.db.escrow_items
    pub other_entries :
        (k : String)
        → k ≢ suffixed r.idempotency_key "_debit"
        → k ≢ suffixed r.idempotency_key "_credit"
        → M.ledger_entries.get k d'.ledger_entries ≡ M.ledger_entries.get k w.db.ledger_entries
    pub claimed : IsClaimed M r.idempotency_key "hold_escrow" w.db d'

  -- With at least one attempt, metadata without personal data, a reason, an amount of at least
  -- zero that the user's wallet covers, a free idempotency key, a new identifier, a free queue
  -- item and free ledger keys, a hold that runs alone returns the balances before and after, moves
  -- the amount from the user's available balance to the one in escrow, stores the escrow item as
  -- held, a debit and a credit entry of the ledger, and a record of its idempotency key. No other
  -- wallet, escrow item, ledger entry or record changes.
  pub hold_effects :
      (n : ℕ) (x : Wallet) (w : State M)
      → cfg.max_retry_attempts ≡ suc n
      → IsClean r
      → MakesIds e
      → record_of M r.idempotency_key "hold_escrow" w.db ≡ none
      → CanHold M cfg r e x (new_escrow_id M cfg r e w) w.db
      → ((hold_in_escrow M cfg r (alone e) w).0
          ≡ ok (
              hold_response M cfg r e (new_escrow_id M cfg r e w) x (before_entries M cfg r e x w)))
        × IsHeld x w (hold_in_escrow M cfg r (alone e) w).1.db
  unfolding held_wallet held_item debit_entry credit_entry entry_doc
  hold_effects n x w tries c m free can =
      let (result, left) = hold_new M cfg r e n x w tries c m free can in
      (
        result,
        rw left (record {
          wallet = M.wallets.get-put_self r.user_id _ w.db.wallets;
          item = (_, M.escrow_items.get-put_self _ _ w.db.escrow_items, refl, refl, refl, refl);
          debit_posted = (
            debit_doc M cfg r e (new_escrow_id M cfg r e w) x (before_entries M cfg r e x w),
            M.ledger_entries.get-put_ne _ _ _ _ (
                  suffixed-ne r.idempotency_key "_debit" "_credit"
                    (texts-differ "_debit" "_credit" refl))
                ∙ M.ledger_entries.get-put_self _ _ w.db.ledger_entries,
            record {
              of_account = refl;
              of_state = refl;
              of_type = refl;
              moved = refl;
              was = refl;
              is = omega int_laws;
              within = refl;
            },
          );
          credit_posted = (
            credit_doc M cfg r e (new_escrow_id M cfg r e w) x (before_entries M cfg r e x w),
            M.ledger_entries.get-put_self _ _ _,
            record {
              of_account = refl;
              of_state = refl;
              of_type = refl;
              moved = refl;
              was = refl;
              is = omega int_laws;
              within = refl;
            },
          );
          other_wallets = λ j ne. M.wallets.get-put_ne j r.user_id _ w.db.wallets ne;
          model_wallets = refl;
          other_items = λ j ne. M.escrow_items.get-put_ne j _ _ w.db.escrow_items ne;
          other_entries = λ k not_debit not_credit.
              M.ledger_entries.get-put_ne k _ _ _ not_credit
              ∙ M.ledger_entries.get-put_ne k _ _ w.db.ledger_entries not_debit;
          claimed =
              with_claim-IsClaimed M r.idempotency_key "hold_escrow" none (e.now w.clock) w.db _
                refl;
        }),
      )
