-- ===== src/Wallet/Guarantees/Steps.antt =====
-- What a relation between databases has to do for the methods of the wallet service to keep it: hold
-- across each single step that they make.
use red_room_rewards.Prelude.{ℕ, ℤ, String, ◌≡◌, some, ◌==◌}
use red_room_rewards.Domain.{EscrowStatus}
use red_room_rewards.Store.{Mongo, Db}
use red_room_rewards.Store.Docs.{Wallet, ModelWallet, EscrowItem, LedgerEntry, IdempotencyRecord}
use red_room_rewards.Action.{ok}
use red_room_rewards.Action.Triples.{Stable}
use red_room_rewards.Action.Keeps.{Preorder}
use red_room_rewards.Ledger.Entries.{insert_entry}
use red_room_rewards.Ledger.Entries.Laws.{IsRecordable}
use red_room_rewards.Ledger.Idempotency.{insert_record}
use red_room_rewards.Wallet.Steps.{
  new_wallet, new_model_wallet, create_wallet, update_wallet, create_model_wallet,
  update_model_wallet, create_escrow, delete_escrow, lock_escrow, set_escrow, unlocked,
}
use red_room_rewards.Wallet.Hold.{check_balance, held_wallet}
use red_room_rewards.Wallet.Settle.{credited_model, released_wallet, settled_item}
use red_room_rewards.Wallet.Refund.{returned_wallet, refunded_item}

-- The steps of a hold. `Seen` says of a wallet that it has been read, which no step takes back; the
-- balance that a hold is taken from has passed its check.
pub record HoldSteps {M : Mongo} (Seen : String → Wallet → Db M → Type 0) (G : Db M → Db M → Type 0)
    : Type 0 where
  pub order : Preorder G
  pub inserts : (e : LedgerEntry) (d : Db M) → IsRecordable e → G d (insert_entry M e d).1
  pub records : (r : IdempotencyRecord) (d : Db M) → G d (insert_record M r d).1
  pub creates :
      (id currency : String) (d : Db M) → G d (create_wallet M (new_wallet id currency) d).1
  pub creates_escrow : (x : EscrowItem) (d : Db M) → G d (create_escrow M x d).1
  pub deletes_escrow : (id : String) (d : Db M) → G d (delete_escrow M id d).1
  pub holds :
      (id : String) (amount : ℤ) (read : Wallet) (d : Db M)
      → check_balance amount read ≡ ok tt
      → Seen id read d
      → G d (update_wallet M id (λ w. w.version == read.version) (held_wallet amount read) d).1
  pub seen_stable : (id : String) (w : Wallet) → Stable G (Seen id w)
  pub seen_found :
      (id : String) (w : Wallet) (d : Db M) → M.wallets.get id d.wallets ≡ some w → Seen id w d

-- The steps of a refund, which gives back what it takes from the escrow balance.
pub record RefundSteps {M : Mongo} (Allowed : ℤ → Type 0) (G : Db M → Db M → Type 0) : Type 0 where
  pub order : Preorder G
  pub inserts : (e : LedgerEntry) (d : Db M) → IsRecordable e → G d (insert_entry M e d).1
  pub records : (r : IdempotencyRecord) (d : Db M) → G d (insert_record M r d).1
  pub locks :
      (id : String) (status : EscrowStatus) (now : ℕ) (d : Db M)
      → G d (lock_escrow M id status now d).1
  pub unlocks : (id : String) (d : Db M) → G d (set_escrow M id unlocked d).1
  pub refunds : (id : String) (d : Db M) → G d (set_escrow M id refunded_item d).1
  pub returns :
      (id : String) (amount : ℤ) (version : ℕ) (d : Db M)
      → Allowed amount
      → G d (update_wallet M id (λ w. w.version == version) (returned_wallet amount amount) d).1

-- One field for each kind of step. The balance that a hold is taken from has passed its check, and
-- an amount that is given back is `Allowed`.
pub record WalletSteps {M : Mongo} (Allowed : ℤ → Type 0) (G : Db M → Db M → Type 0) : Type 0 where
  pub order : Preorder G
  pub inserts : (e : LedgerEntry) (d : Db M) → IsRecordable e → G d (insert_entry M e d).1
  pub records : (r : IdempotencyRecord) (d : Db M) → G d (insert_record M r d).1
  pub creates :
      (id currency : String) (d : Db M) → G d (create_wallet M (new_wallet id currency) d).1
  pub creates_model :
      (id currency : String) (d : Db M)
      → G d (create_model_wallet M (new_model_wallet id currency) d).1
  pub creates_escrow : (x : EscrowItem) (d : Db M) → G d (create_escrow M x d).1
  pub deletes_escrow : (id : String) (d : Db M) → G d (delete_escrow M id d).1
  pub locks :
      (id : String) (status : EscrowStatus) (now : ℕ) (d : Db M)
      → G d (lock_escrow M id status now d).1
  pub unlocks : (id : String) (d : Db M) → G d (set_escrow M id unlocked d).1
  pub settles : (id model : String) (d : Db M) → G d (set_escrow M id (settled_item model) d).1
  pub refunds : (id : String) (d : Db M) → G d (set_escrow M id refunded_item d).1
  pub holds :
      (id : String) (amount : ℤ) (read : Wallet) (d : Db M)
      → check_balance amount read ≡ ok tt
      → G d (update_wallet M id (λ w. w.version == read.version) (held_wallet amount read) d).1
  pub releases :
      (id : String) (amount : ℤ) (version : ℕ) (d : Db M)
      → G d (update_wallet M id (λ w. w.version == version) (released_wallet amount) d).1
  pub returns :
      (id : String) (given taken : ℤ) (version : ℕ) (d : Db M)
      → Allowed given
      → G d (update_wallet M id (λ w. w.version == version) (returned_wallet given taken) d).1
  pub credits :
      (id : String) (amount : ℤ) (read : ModelWallet) (d : Db M)
      → G d
          (update_model_wallet M id
            (λ w. w.version == read.version)
            (credited_model amount read)
            d).1

module _ {M : Mongo} {Allowed : ℤ → Type 0} {G : Db M → Db M → Type 0}
    (s : WalletSteps Allowed G) where
  -- The steps of a hold that asks nothing of the wallet that was read.
  pub hold_steps : HoldSteps {M = M} (λ id w d. Unit {0}) G
  hold_steps = record {
    order = s.order;
    inserts = s.inserts;
    records = s.records;
    creates = s.creates;
    creates_escrow = s.creates_escrow;
    deletes_escrow = s.deletes_escrow;
    holds = λ id a w d p q. s.holds id a w d p;
    seen_stable = λ id w d d' g p. tt;
    seen_found = λ id w d h. tt;
  }

  pub refund_steps : RefundSteps {M = M} Allowed G
  refund_steps = record {
    order = s.order;
    inserts = s.inserts;
    records = s.records;
    locks = s.locks;
    unlocks = s.unlocks;
    refunds = s.refunds;
    returns = λ id a v d p. s.returns id a a v d p;
  }
