-- ===== src/Ledger/Reconciliation.antt =====
-- `generateReconciliationReport` and `getAuditTrail` of ledger/ledger.service.ts. An amount is in
-- thousandths of a point, so the tolerance of 0.01 is ten.
pub mod Untenanted
use red_room_rewards.Prelude.{
  ℕ, ℤ, pos, ◌+ℤ◌, ◌-ℤ◌, abs, ltb_ℤ, leb, String, Bool, true, false, ◌&&◌, List, [], ◌∷◌, map,
  Option, none, some, str_eq, if◌then◌else◌,
}
use red_room_rewards.Domain.{
  AccountType, TransactionType, credit, debit, same_account_type, same_type,
}
use red_room_rewards.Store.{Mongo, Db}
use red_room_rewards.Store.Docs.{LedgerEntry}
use red_room_rewards.Action.{Result, ok, pure, atomically, atomically_at, ◌>>=◌, current_time}
use red_room_rewards.Service.{Service}
use red_room_rewards.Ledger.Entries.{map_to_domain}
use red_room_rewards.Ledger.Idempotency.{of_tenant}
use red_room_rewards.Ledger.Snapshot.{BalanceSnapshot, sort_by_time, get_balance_snapshot}

pub record ReconciliationReport : Type 0 where
  pub account_id : String
  pub account_type : AccountType
  pub starting_balance : ℤ
  pub total_credits : ℤ
  pub total_debits : ℤ
  pub calculated_balance : ℤ
  pub actual_balance : ℤ
  pub difference : ℤ
  pub reconciled : Bool
  pub reported_at : ℕ
  pub start_date : ℕ
  pub end_date : ℕ

pub record AuditTrailEntry : Type 0 where
  pub audit_id : String
  pub ledger_entry : LedgerEntry
  pub audited_at : ℕ

-- The filter of the entries in the date range.
abbrev pub in_range : String → AccountType → ℕ → ℕ → String → LedgerEntry → Bool
in_range id type start end tenant e =
    of_tenant tenant e.tenant_id
    && str_eq e.account_id id
    && same_account_type e.account_type type
    && leb start e.timestamp
    && leb e.timestamp end

-- The two totals of the loop. The order of the entries does not matter to them.
unfoldable pub total_credits_of : List LedgerEntry → ℤ
total_credits_of [] = pos 0
total_credits_of (e ∷ es) =
    let rest = total_credits_of es in if same_type e.type credit then e.amount +ℤ rest else rest

unfoldable pub total_debits_of : List LedgerEntry → ℤ
total_debits_of [] = pos 0
total_debits_of (e ∷ es) =
    let rest = total_debits_of es in if same_type e.type credit then rest else abs e.amount +ℤ rest

-- `x || 0`
abbrev pub or_zero : Option ℤ → ℤ
or_zero none = pos 0
or_zero (some a) = a

abbrev pub snapshot_total : BalanceSnapshot → ℤ
snapshot_total s = s.available_balance +ℤ or_zero s.escrow_balance +ℤ or_zero s.earned_balance

unfoldable pub report_of :
    String → AccountType → ℕ → ℕ → ℤ → List LedgerEntry → ℤ → ℕ → ReconciliationReport
report_of id type start end starting entries actual now =
    let calculated = starting +ℤ total_credits_of entries -ℤ total_debits_of entries in
    record {
      account_id = id;
      account_type = type;
      starting_balance = starting;
      total_credits = total_credits_of entries;
      total_debits = total_debits_of entries;
      calculated_balance = calculated;
      actual_balance = actual;
      difference = actual -ℤ calculated;
      reconciled = ltb_ℤ (abs (actual -ℤ calculated)) (pos 10);
      reported_at = now;
      start_date = start;
      end_date = end;
    }

-- The entry of a transaction, in its tenant.
abbrev pub of_transaction : String → String → LedgerEntry → Bool
of_transaction transaction_id tenant e =
    of_tenant tenant e.tenant_id && str_eq e.transaction_id transaction_id

abbrev pub audit_entry : LedgerEntry → AuditTrailEntry
audit_entry e = record {
  audit_id = e.entry_id;
  ledger_entry = map_to_domain e;
  audited_at = e.timestamp;
}

module _ (M : Mongo) where
  unfoldable pub find_entries : (LedgerEntry → Bool) → Db M → Result (List LedgerEntry) × Db M
  find_entries p d = (ok (M.ledger_entries.find p d.ledger_entries), d)

  -- The snapshots are not limited to the tenant.
  unfoldable pub generate_reconciliation_report :
      String → String → AccountType → ℕ → ℕ → String → Service M ReconciliationReport
  generate_reconciliation_report currency id type start end tenant = do
    first ← get_balance_snapshot M currency id type (some start) none
    entries ← atomically (find_entries (in_range id type start end tenant))
    last ← get_balance_snapshot M currency id type (some end) none
    now ← current_time
    pure (report_of id type start end (snapshot_total first) entries (snapshot_total last) now)

  unfoldable pub find_trail : String → String → ℕ → Db M → Result (List LedgerEntry) × Db M
  find_trail transaction_id tenant n d = (
    ok (
        sort_by_time (
          M.arrange n
            (M.ledger_entries.find (of_transaction transaction_id tenant) d.ledger_entries))),
    d,
  )

  unfoldable pub get_audit_trail : String → String → Service M (List AuditTrailEntry)
  get_audit_trail transaction_id tenant = do
    entries ← atomically_at (find_trail transaction_id tenant)
    pure (map audit_entry entries)
