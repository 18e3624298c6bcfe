-- ===== src/Ledger/Snapshot/Latest.antt =====
-- What `getBalanceSnapshot` of ledger/ledger.service.ts shows of the youngest entry of a state.
use red_room_rewards.Prelude.{ℕ, ℤ, pos, ◌≤◌, ◌<◌, String, ◌≡◌, ◌⊎◌}
use red_room_rewards.Domain.{AccountType, BalanceState, available, escrow, earned}
use red_room_rewards.Store.{Mongo}
use red_room_rewards.Store.Docs.{LedgerEntry}
use red_room_rewards.Ledger.Snapshot.{Balances}

abbrev pub balance_in : BalanceState → Balances → ℤ
balance_in available b = b.of_available
balance_in escrow b = b.of_escrow
balance_in earned b = b.of_earned

abbrev time_of : LedgerEntry → ℤ
time_of x = pos x.timestamp

-- No other entry of the state of `e` is as young as `e`.
abbrev Older : LedgerEntry → LedgerEntry → Type 0
Older e x = x.balance_state ≡ e.balance_state → (x ≡ e) ⊎ (x.timestamp < e.timestamp)

module _ (M : Mongo) (id : String) (type : AccountType) (end : ℕ) (e : LedgerEntry) where
  -- The entry is one of the account, up to the date.
  abbrev pub IsOf : LedgerEntry → Type 0
  IsOf x = (x.account_id ≡ id) × (x.account_type ≡ type) × (x.timestamp ≤ end)

  -- If the entry is one of the account and of the state of `e` up to the date, it is `e` or older.
  abbrev pub IsOlder : LedgerEntry → Type 0
  IsOlder x = IsOf x → x.balance_state ≡ e.balance_state → (x ≡ e) ⊎ (x.timestamp < e.timestamp)
