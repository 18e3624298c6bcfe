-- ===== src/Ledger/Snapshot.antt =====
-- `getBalanceSnapshot` of ledger/ledger.service.ts. Entries of one timestamp are taken in the order in
-- which the call of the database meets them.
pub mod Latest
use red_room_rewards.Prelude.{
  sort_by, ℕ, ℤ, pos, leb, String, Bool, true, false, ◌&&◌, List, [], ◌∷◌, Option, none, some,
  str_eq, is_empty, if◌then◌else◌,
}
use red_room_rewards.Domain.{
  AccountType, BalanceState, available, escrow, earned, same_account_type,
}
use red_room_rewards.Store.{Mongo, Db}
use red_room_rewards.Store.Docs.{LedgerEntry}
use red_room_rewards.Action.{Result, ok, pure, atomically_at, ◌>>=◌, current_time}
use red_room_rewards.Service.{Service}
use red_room_rewards.Ledger.Idempotency.{of_tenant}

pub record BalanceSnapshot : Type 0 where
  pub account_id : String
  pub account_type : AccountType
  pub available_balance : ℤ
  pub escrow_balance : Option ℤ
  pub earned_balance : Option ℤ
  pub as_of : ℕ
  pub currency : String

-- `balances`
pub record Balances : Type 0 where
  pub of_available : ℤ
  pub of_escrow : ℤ
  pub of_earned : ℤ

abbrev pub no_balances : Balances
no_balances = record { of_available = pos 0; of_escrow = pos 0; of_earned = pos 0 }

-- `tenantId ? { tenant_id: { $eq: tenantId }, … } : …`
abbrev pub in_tenant : Option String → Option String → Bool
in_tenant none found = true
in_tenant (some t) found = if is_empty t then true else of_tenant t found

abbrev pub until : Option ℕ → ℕ → Bool
until none timestamp = true
until (some end) timestamp = leb timestamp end

unfoldable pub of_account : String → AccountType → Option ℕ → Option String → LedgerEntry → Bool
of_account id type as_of tenant e =
    str_eq e.account_id id
    && same_account_type e.account_type type
    && until as_of e.timestamp
    && in_tenant tenant e.tenant_id

-- `.sort({ timestamp: 1 })`
abbrev pub sort_by_time : List LedgerEntry → List LedgerEntry
sort_by_time es = sort_by (λ e. pos e.timestamp) es

-- `balances[entry.balanceState] = entry.balanceAfter`
abbrev pub set_balance : BalanceState → ℤ → Balances → Balances
set_balance available amount b = record b { of_available = amount }
set_balance escrow amount b = record b { of_escrow = amount }
set_balance earned amount b = record b { of_earned = amount }

abbrev pub apply_entry : Balances → LedgerEntry → Balances
apply_entry b e = set_balance e.balance_state e.balance_after b

-- The loop over the entries.
unfoldable pub replay : Balances → List LedgerEntry → Balances
replay b [] = b
replay b (e ∷ es) = replay (apply_entry b e) es

abbrev pub snapshot_of : String → AccountType → Balances → ℕ → String → BalanceSnapshot
snapshot_of id AccountType.user b as_of currency = record {
  account_id = id;
  account_type = AccountType.user;
  available_balance = b.of_available;
  escrow_balance = some b.of_escrow;
  earned_balance = none;
  as_of = as_of;
  currency = currency;
}
snapshot_of id AccountType.model b as_of currency = record {
  account_id = id;
  account_type = AccountType.model;
  available_balance = b.of_available;
  escrow_balance = none;
  earned_balance = some b.of_earned;
  as_of = as_of;
  currency = currency;
}

module _ (M : Mongo) where
  -- The balances that the ledger shows for an account to the call of a number.
  unfoldable pub ledger_balances :
      String → AccountType → Option ℕ → Option String → ℕ → M.ledger_entries.Docs → Balances
  ledger_balances id type as_of tenant n c =
      replay no_balances
        (sort_by_time (M.arrange n (M.ledger_entries.find (of_account id type as_of tenant) c)))

  unfoldable pub read_balances :
      String → AccountType → Option ℕ → Option String → ℕ → Db M → Result Balances × Db M
  read_balances id type as_of tenant n d =
      (ok (ledger_balances id type as_of tenant n d.ledger_entries), d)

  -- `asOf || new Date()`
  unfoldable pub given_or_now : Option ℕ → Service M ℕ
  given_or_now none = current_time
  given_or_now (some t) = pure t

  unfoldable pub get_balance_snapshot :
      String → String → AccountType → Option ℕ → Option String → Service M BalanceSnapshot
  get_balance_snapshot currency id type as_of tenant = do
    b ← atomically_at (read_balances id type as_of tenant)
    at ← given_or_now as_of
    pure (snapshot_of id type b at currency)
