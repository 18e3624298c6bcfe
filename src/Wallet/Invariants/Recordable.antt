-- ===== src/Wallet/Invariants/Recordable.antt =====
-- The entries of the ledger against the checks of `createEntry`, along any requests to
-- wallets/wallet.service.ts.
use red_room_rewards.Prelude.{
  some-injective, String, ◌≡◌, ◌∙◌, sym, inl, inr, List, All, some, arith, Option-cases, Bool-cases,
  str_eq, str_eq_iff,
}
use red_room_rewards.Domain.{user, model, earned, escrow, Metadata}
use red_room_rewards.Store.{Mongo, Db}
use red_room_rewards.Store.Docs.{LedgerEntry}
use red_room_rewards.Action.{Env, Respects}
use red_room_rewards.Action.Keeps.{Preorder}
use red_room_rewards.Service.{State}
use red_room_rewards.Ledger.Entries.{state_error, insert_entry}
use red_room_rewards.Ledger.Pii.Pattern.{IsHarmless}
use red_room_rewards.Ledger.Pii.Scan.{pii_error-none_iff}
use red_room_rewards.Ledger.Entries.Laws.{IsRecordable}
use red_room_rewards.Ledger.Idempotency.{insert_record}
use red_room_rewards.Wallet.Config.{Config}
use red_room_rewards.Wallet.Steps.{
  create_wallet, update_wallet, create_model_wallet, update_model_wallet, create_escrow,
  delete_escrow, lock_escrow, set_escrow,
}
use red_room_rewards.Wallet.Calls.{Call, perform_all}
use red_room_rewards.Wallet.Guarantees.{WalletSteps, GivesBack-any, perform_all-Guarantees}

-- A user has no earned balance and a model none in escrow, and no top-level field of the metadata
-- has a forbidden name or a text with an email address in it.
pub record IsProper (e : LedgerEntry) : Type 0 where
  pub not_earned : e.account_type ≡ user → e.balance_state ≡ earned → ⊥
  pub not_escrow : e.account_type ≡ model → e.balance_state ≡ escrow → ⊥
  pub harmless : (m : Metadata) → e.metadata ≡ some m → All IsHarmless m

IsRecordable-IsProper : (e : LedgerEntry) → IsRecordable e → IsProper e
unfolding state_error
IsRecordable-IsProper e good = record {
  not_earned = λ kind state. let checked = rw (kind, state) at good.state in cc;
  not_escrow = λ kind state. let checked = rw (kind, state) at good.state in cc;
  harmless = λ m is. (pii_error-none_iff m).0 (rw is at good.clean);
}

pub record IsClean {M : Mongo} (d : Db M) : Type 0 where
  pub proper :
      (k : String) (e : LedgerEntry) → M.ledger_entries.get k d.ledger_entries ≡ some e → IsProper e

-- A step keeps the invariant.
abbrev pub StaysClean : {M : Mongo} → Db M → Db M → Type 0
StaysClean d d' = IsClean d → IsClean d'

pub StaysClean-Preorder : {M : Mongo} → Preorder {Db = Db M} StaysClean
StaysClean-Preorder = record { rel_refl = λ d h. h; rel_trans = λ g h n. h (g n) }

module _ {M : Mongo} where
  same-Clean : (d d' : Db M) → d'.ledger_entries ≡ d.ledger_entries → StaysClean d d'
  same-Clean d d' p n = record { proper = λ k e h. n.proper k e (rw p at h) }

  put-Clean :
      (k : String) (e : LedgerEntry) (d : Db M)
      → IsProper e
      → StaysClean d (record d { ledger_entries = M.ledger_entries.put k e d.ledger_entries })
  put-Clean k e d good n = record {
    proper = λ j x h. elim (Bool-cases (str_eq j k)) [
      | inl same ↦
          let at : j ≡ k = (str_eq_iff j k).0 same in
          let is : e ≡ x =
            some-injective e x
              (sym (M.ledger_entries.get-put_self k e d.ledger_entries) ∙ (rw at at h)) in
          rw (sym is) good
      | inr other ↦ n.proper j x (
          rw (M.ledger_entries.get-put_ne j k e d.ledger_entries (λ p. cc ((str_eq_iff j k).1 p)))
            at h)
    ];
  }

  insert_entry-Clean :
      (e : LedgerEntry) (d : Db M) → IsRecordable e → StaysClean d (insert_entry M e d).1
  unfolding insert_entry
  insert_entry-Clean e d good =
      elim (Option-cases (M.ledger_entries.get e.idempotency_key d.ledger_entries)) [
        | inl new ↦
            rw (new, insert_entry) (put-Clean e.idempotency_key e d (IsRecordable-IsProper e good))
        | inr (old, found) ↦ rw (found, insert_entry) (λ n. n)
      ]

  Clean-steps : WalletSteps {M = M} (λ a. Unit {0}) StaysClean
  unfolding insert_record create_wallet update_wallet create_model_wallet update_model_wallet
      create_escrow delete_escrow lock_escrow set_escrow
  Clean-steps = record {
    order = StaysClean-Preorder;
    inserts = λ e d p. insert_entry-Clean e d p;
    records = λ r d. same-Clean d _ (ground arith);
    creates = λ id cur d. same-Clean d _ (ground arith);
    creates_model = λ id cur d. same-Clean d _ (ground arith);
    creates_escrow = λ x d. same-Clean d _ (ground arith);
    deletes_escrow = λ id d. same-Clean d _ (ground arith);
    locks = λ id st now d. same-Clean d _ (ground arith);
    unlocks = λ id d. same-Clean d _ (ground arith);
    settles = λ id m d. same-Clean d _ (ground arith);
    refunds = λ id d. same-Clean d _ (ground arith);
    holds = λ id a r d p. same-Clean d _ (ground arith);
    releases = λ id a v d. same-Clean d _ (ground arith);
    returns = λ id g t v d p. same-Clean d _ (ground arith);
    credits = λ id a r d. same-Clean d _ (ground arith);
  }

  -- If no ledger entry is of a user's earned balance or of a model's balance in escrow, and none
  -- has in its metadata a top-level field with a forbidden name or with a text in which there is
  -- an email address, then none is or has after any requests, among steps of others that keep it
  -- so.
  pub perform_all-Clean :
      (cfg : Config) (cs : List Call) (e : Env (Db M)) (w : State M)
      → Respects StaysClean e
      → IsClean w.db
      → IsClean (perform_all M cfg cs e w).1.db
  perform_all-Clean cfg cs e w r =
      (perform_all-Guarantees Clean-steps cfg cs (GivesBack-any cs)).at e w r
