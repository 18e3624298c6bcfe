-- ===== src/Ledger/Entries/Posts.antt =====
-- What a ledger entry of ledger/ledger.service.ts says of a movement on one balance of an account.
use red_room_rewards.Prelude.{ℤ, ◌+ℤ◌, String, ◌≡◌, some}
use red_room_rewards.Domain.{BalanceState, TransactionType}
use red_room_rewards.Store.{Mongo, Db}
use red_room_rewards.Store.Docs.{LedgerEntry}

-- A movement of `amount`, negative if points are taken, on a balance that was `before`: the entry
-- carries the balance on both sides of it.
pub record Posts (account : String) (state : BalanceState) (type : TransactionType)
    (before amount : ℤ) (transaction : String) (l : LedgerEntry) : Type 0 where
  pub of_account : l.account_id ≡ account
  pub of_state : l.balance_state ≡ state
  pub of_type : l.type ≡ type
  pub moved : l.amount ≡ amount
  pub was : l.balance_before ≡ before
  pub is : l.balance_after ≡ before +ℤ amount
  pub within : l.transaction_id ≡ transaction

-- The entry under a key says so.
abbrev pub Posted :
    (M : Mongo) → Db M → String → String → BalanceState → TransactionType → ℤ → ℤ → String → Type 0
Posted M d key account state type before amount transaction =
    (l : LedgerEntry) × (M.ledger_entries.get key d.ledger_entries ≡ some l)
    × Posts account state type before amount transaction l
