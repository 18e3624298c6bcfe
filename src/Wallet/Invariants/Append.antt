-- ===== src/Wallet/Invariants/Append.antt =====
-- The ledger and the idempotency records, along any requests to wallets/wallet.service.ts.
use red_room_rewards.Prelude.{List, arith}
use red_room_rewards.Store.{Mongo, Db}
use red_room_rewards.Action.{Env, Respects}
use red_room_rewards.Service.{State}
use red_room_rewards.Ledger.Grows.{
  Grows, Grows-Preorder, same-Grows, insert_entry-Grows, insert_record-Grows,
}
use red_room_rewards.Wallet.Config.{Config}
use red_room_rewards.Wallet.Steps.{
  create_wallet, update_wallet, create_model_wallet, update_model_wallet, create_escrow,
  delete_escrow, lock_escrow, set_escrow,
}
use red_room_rewards.Wallet.Calls.{Call, perform_all}
use red_room_rewards.Wallet.Guarantees.{WalletSteps, GivesBack-any, perform_all-Guarantees}

module _ {M : Mongo} where
  Grows-steps : WalletSteps {M = M} (λ a. Unit {0}) Grows
  unfolding create_wallet update_wallet create_model_wallet update_model_wallet create_escrow
      delete_escrow lock_escrow set_escrow
  Grows-steps = record {
    order = Grows-Preorder;
    inserts = λ e d p. insert_entry-Grows e d;
    records = insert_record-Grows;
    creates = λ id cur d. same-Grows d _ (ground arith) (ground arith);
    creates_model = λ id cur d. same-Grows d _ (ground arith) (ground arith);
    creates_escrow = λ x d. same-Grows d _ (ground arith) (ground arith);
    deletes_escrow = λ id d. same-Grows d _ (ground arith) (ground arith);
    locks = λ id st now d. same-Grows d _ (ground arith) (ground arith);
    unlocks = λ id d. same-Grows d _ (ground arith) (ground arith);
    settles = λ id m d. same-Grows d _ (ground arith) (ground arith);
    refunds = λ id d. same-Grows d _ (ground arith) (ground arith);
    holds = λ id a r d p. same-Grows d _ (ground arith) (ground arith);
    releases = λ id a v d. same-Grows d _ (ground arith) (ground arith);
    returns = λ id g t v d p. same-Grows d _ (ground arith) (ground arith);
    credits = λ id a r d. same-Grows d _ (ground arith) (ground arith);
  }

  -- A ledger entry and an idempotency record that are there before any requests are there after
  -- them, unchanged, if the steps of others keep entries and records too.
  pub perform_all-Grows :
      (cfg : Config) (cs : List Call) (e : Env (Db M)) (w : State M)
      → Respects Grows e
      → Grows w.db (perform_all M cfg cs e w).1.db
  perform_all-Grows cfg cs e w r =
      (perform_all-Guarantees Grows-steps cfg cs (GivesBack-any cs)).at e w r
