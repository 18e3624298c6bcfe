-- ===== src/Wallet/Hold/Run.antt =====
-- The steps of `holdInEscrow` with no other request at work, in the order of the code.
use red_room_rewards.Prelude.{
  ℕ, suc, pos, ◌≤ℤ◌, String, ◌≡◌, refl, [], none, some, arith, str_eq, ◌==◌, ==_refl,
}
use red_room_rewards.Domain.{EscrowHoldRequest, EscrowHoldResponse}
use red_room_rewards.Store.{Mongo, Db}
use red_room_rewards.Store.Docs.{Wallet}
use red_room_rewards.Action.{Env, ok, alone, ◌>>=◌}
use red_room_rewards.Service.{State}
use red_room_rewards.Ledger.Entries.Alone.{MakesIds}
use red_room_rewards.Ledger.Idempotency.Claims.{record_of, with_claim, claim_free}
use red_room_rewards.Wallet.Config.{Config}
use red_room_rewards.Wallet.Steps.{
  find_wallet, update_wallet, create_escrow, get_or_create_wallet, or_create_wallet,
}
use red_room_rewards.Wallet.Hold.{
  check_balance, held_item, held_wallet, record_hold, after_hold, execute_hold_in_escrow,
  retry_hold, hold_attempts, hold_in_escrow,
}
use red_room_rewards.Wallet.Hold.Alone.{IsClean, KeysFree, hold_response, recorded, record_hold_new}

module _ (M : Mongo) (cfg : Config) (r : EscrowHoldRequest) (e : Env (Db M)) where
  -- What a hold needs of the database: a wallet `x` that covers the amount, a new identifier, and no
  -- escrow item of the same queue item.
  pub record CanHold (x : Wallet) (id : String) (d : Db M) : Type 0 where
    pub found : M.wallets.get r.user_id d.wallets ≡ some x
    pub covered : r.amount ≤ℤ x.available_balance
    pub amount_nonneg : pos 0 ≤ℤ r.amount
    pub id_free : M.escrow_items.get id d.escrow_items ≡ none
    pub queue_free :
        M.escrow_items.find (λ y. str_eq y.queue_item_id r.queue_item_id) d.escrow_items ≡ []
    pub keys_free : KeysFree M cfg r e d

  -- The escrow item and the wallet that a hold leaves.
  abbrev pub held_db : Wallet → String → ℕ → Db M → Db M
  held_db x id now d = record d {
    escrow_items = M.escrow_items.put id (held_item r id now) d.escrow_items;
    wallets = M.wallets.put r.user_id (held_wallet r.amount x x) d.wallets;
  }

  pub check_balance_covered :
      (x : Wallet) → r.amount ≤ℤ x.available_balance → check_balance r.amount x ≡ ok tt
  unfolding check_balance
  check_balance_covered x h = ground arith

  pub create_escrow_new :
      (x : Wallet) (id : String) (now : ℕ) (d : Db M)
      → CanHold x id d
      → create_escrow M (held_item r id now) d ≡ (
        ok (held_item r id now),
        record d { escrow_items = M.escrow_items.put id (held_item r id now) d.escrow_items },
      )
  unfolding create_escrow held_item
  create_escrow_new x id now d can = ground (arith, can.id_free, can.queue_free)

  update_held :
      (x : Wallet) (d : Db M)
      → M.wallets.get r.user_id d.wallets ≡ some x
      → update_wallet M r.user_id (λ v. v.version == x.version) (held_wallet r.amount x) d ≡ (
        ok (some (held_wallet r.amount x x)),
        record d { wallets = M.wallets.put r.user_id (held_wallet r.amount x x) d.wallets },
      )
  unfolding update_wallet
  update_held x d found = rw (found, update_wallet) (rw (==_refl x.version))

  -- The state in which the ledger entries are written, with the clock at `n`.
  abbrev pub held_world : Wallet → ℕ → State M → State M
  held_world x n w = record w {
    clock = suc (suc (suc n));
    db = held_db x (e.uuid (suc w.clock)) (e.now (suc (suc w.clock))) w.db;
  }

  abbrev with_escrow : State M → Db M
  with_escrow w = record w.db {
    escrow_items =
        M.escrow_items.put (e.uuid (suc w.clock))
          (held_item r (e.uuid (suc w.clock)) (e.now (suc (suc w.clock)))) w.db.escrow_items;
  }

  execute_new :
      (x : Wallet) (w : State M)
      → CanHold x (e.uuid (suc w.clock)) w.db
      → execute_hold_in_escrow M cfg r (alone e) w
        ≡ record_hold M cfg r
            (e.uuid (suc w.clock))
            x
            (alone e)
            (held_world x (suc (suc w.clock)) w)
  unfolding execute_hold_in_escrow ◌>>=◌ get_or_create_wallet or_create_wallet find_wallet
      after_hold
  execute_new x w can = rw can.found (
      rw (check_balance_covered x can.covered)
        (rw (create_escrow_new x _ _ _ can) (rw (update_held x (with_escrow w) can.found))))

  -- After the claim, at the clock that the claim leaves.
  abbrev pub claimed_world : State M → State M
  claimed_world w = record w {
    clock = suc (suc w.clock);
    db = with_claim M r.idempotency_key "hold_escrow" none (e.now w.clock) w.db;
  }

  attempts_once :
      (k n : ℕ) (w : State M) (response : EscrowHoldResponse)
      → k ≡ suc n
      → (execute_hold_in_escrow M cfg r (alone e) w).0 ≡ ok response
      → hold_attempts M cfg k r (alone e) w
        ≡ (ok response, (execute_hold_in_escrow M cfg r (alone e) w).1)
  unfolding hold_attempts ◌>>=◌ retry_hold
  attempts_once k n w response some_left h = rw some_left (rw h)

  pub claim_then :
      (w : State M)
      → record_of M r.idempotency_key "hold_escrow" w.db ≡ none
      → hold_in_escrow M cfg r (alone e) w
        ≡ hold_attempts M cfg cfg.max_retry_attempts r (alone e) (claimed_world w)
  unfolding hold_in_escrow ◌>>=◌
  claim_then w free = rw (claim_free M r.idempotency_key "hold_escrow" none e w free)

  -- The identifier of the escrow item that a hold makes.
  abbrev pub new_escrow_id : State M → String
  new_escrow_id w = e.uuid (suc (suc (suc w.clock)))

  abbrev pub before_entries : Wallet → State M → State M
  before_entries x w = held_world x (suc (suc (suc (suc w.clock)))) (claimed_world w)

  pub hold_new :
      (n : ℕ) (x : Wallet) (w : State M)
      → cfg.max_retry_attempts ≡ suc n
      → IsClean r
      → MakesIds e
      → record_of M r.idempotency_key "hold_escrow" w.db ≡ none
      → CanHold x (new_escrow_id w) w.db
      → ((hold_in_escrow M cfg r (alone e) w).0
          ≡ ok (hold_response M cfg r e (new_escrow_id w) x (before_entries x w)))
        × ((hold_in_escrow M cfg r (alone e) w).1.db
            ≡ recorded M cfg r e (new_escrow_id w) x (before_entries x w))
  hold_new n x w tries c m free can =
      let can' : CanHold x (new_escrow_id w) (claimed_world w).db = record {
        found = can.found;
        covered = can.covered;
        amount_nonneg = can.amount_nonneg;
        id_free = can.id_free;
        queue_free = can.queue_free;
        keys_free = record {
          debit_free = can.keys_free.debit_free;
          credit_free = can.keys_free.credit_free;
        };
      } in
      let done = record_hold_new M cfg r e (new_escrow_id w) x (before_entries x w) c m (record {
        debit_free = can.keys_free.debit_free;
        credit_free = can.keys_free.credit_free;
      }) in
      let run = execute_new x (claimed_world w) can' in
      let all = attempts_once cfg.max_retry_attempts n (claimed_world w) _ tries (rw run done.0) in
      rw (claim_then w free) (rw all (refl, rw run done.1))
