-- ===== src/Wallet/Partial/Alone.antt =====
-- The recording of a part by `partialSettleEscrow` of wallets/wallet.service.ts with no other
-- request at work.
use red_room_rewards.Prelude.{
  ℕ, suc, pos, ◌<ℤ◌, ltb_ℤ, String, ◌≡◌, ◌≢◌, refl, false, none, some, is_empty, arith, Bool-cases,
  inl, inr,
}
use red_room_rewards.Domain.{EscrowPartialSettleRequest, CreateLedgerEntryRequest}
use red_room_rewards.Store.{Mongo, Db}
use red_room_rewards.Action.{Env, ok, alone, ◌>>=◌}
use red_room_rewards.Service.{State}
use red_room_rewards.Ledger.Pii.{pii_error}
use red_room_rewards.Ledger.Entries.Alone.{IsAdmissible, new_doc, create_entry_new}
use red_room_rewards.Wallet.Config.{Config}
use red_room_rewards.Wallet.Partial.{entry_if_positive}

-- What a request needs of itself: metadata without personal data, and a reason.
pub record IsClean (r : EscrowPartialSettleRequest) : Type 0 where
  pub clean : pii_error r.metadata ≡ none
  pub reason_given : is_empty r.reason ≡ false

module _ (M : Mongo) (cfg : Config) (e : Env (Db M)) where
  -- What recording an entry leaves: the entry, if its amount is positive.
  pub record Recorded (q : CreateLedgerEntryRequest) (t : String) (w : State M) : Type 0 where
    pub clock : ℕ
    pub entries : M.ledger_entries.Docs
    pub run :
        entry_if_positive M cfg q (alone e) w
        ≡ (ok tt, record w { clock = clock; db = record w.db { ledger_entries = entries } })
    pub others :
        (k : String)
        → k ≢ q.idempotency_key
        → M.ledger_entries.get k entries ≡ M.ledger_entries.get k w.db.ledger_entries
    pub written :
        pos 0 <ℤ q.amount
        → M.ledger_entries.get q.idempotency_key entries
          ≡ some (new_doc M cfg.ledger_currency q t e w)

  pub entry_if_positive_new :
      (q : CreateLedgerEntryRequest) (t : String) (w : State M)
      → IsAdmissible q t
      → M.ledger_entries.get q.idempotency_key w.db.ledger_entries ≡ none
      → Recorded q t w
  unfolding entry_if_positive ◌>>=◌
  entry_if_positive_new q t w a free = elim (Bool-cases (ltb_ℤ (pos 0) q.amount)) [
    | inl positive ↦ record {
      clock = suc (suc (suc w.clock));
      entries =
          M.ledger_entries.put q.idempotency_key (new_doc M cfg.ledger_currency q t e w)
            w.db.ledger_entries;
      run = rw positive (rw (create_entry_new M cfg.ledger_currency q t e w a free) refl);
      others = λ k ne. M.ledger_entries.get-put_ne k _ _ w.db.ledger_entries ne;
      written = λ h. M.ledger_entries.get-put_self _ _ w.db.ledger_entries;
    }
    | inr zero_or_less ↦ record {
      clock = w.clock;
      entries = w.db.ledger_entries;
      run = rw zero_or_less refl;
      others = λ k ne. refl;
      written = λ h. absurd (ground arith);
    }
  ]
