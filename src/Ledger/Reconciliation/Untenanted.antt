-- ===== src/Ledger/Reconciliation/Untenanted.antt =====
-- The reads by tenant of ledger/ledger.service.ts, on entries that have no tenant.
use red_room_rewards.Prelude.{
  ℕ, pos, ◌-ℤ◌, int_laws, String, ◌≡◌, refl, Bool, false, List, [], ◌∷◌, none, All, keep_if,
}
use red_room_rewards.Domain.{AccountType}
use red_room_rewards.Store.{Mongo, Db}
use red_room_rewards.Store.Docs.{LedgerEntry}
use red_room_rewards.Store.Interface.{everything}
use red_room_rewards.Action.{Env, ok, alone, ◌>>=◌}
use red_room_rewards.Service.{State}
use red_room_rewards.Ledger.Snapshot.{read_balances, given_or_now, get_balance_snapshot}
use red_room_rewards.Ledger.Reconciliation.{
  ReconciliationReport, in_range, total_credits_of, total_debits_of, report_of, find_entries,
  generate_reconciliation_report,
}

abbrev pub Untenanted : LedgerEntry → Type 0
Untenanted e = e.tenant_id ≡ none

none_kept :
    (p : LedgerEntry → Bool) (es : List LedgerEntry)
    → ((x : LedgerEntry) → Untenanted x → p x ≡ false)
    → All Untenanted es
    → keep_if p es ≡ []
none_kept p [] fails h = refl
none_kept p (e ∷ es) fails (h, hs) = rw (fails e h) (none_kept p es fails hs)

module _ (M : Mongo) (e : Env (Db M)) (w : State M) where
  -- Every entry of the ledger is as `createEntry` writes it.
  abbrev pub AllUntenanted : Type 0
  AllUntenanted = All Untenanted (M.ledger_entries.find everything w.db.ledger_entries)

  -- If no ledger entry has a tenant, a reconciliation report of any account, date range and tenant
  -- that is made with no other request at work has no credits and no debits, so that its difference
  -- is the whole change of the balance between the two dates.
  pub report_blind :
      (currency id : String) (type : AccountType) (start end : ℕ) (tenant : String)
      → AllUntenanted
      → (x : ReconciliationReport) × ((generate_reconciliation_report M currency id type start end
            tenant
            (alone e)
            w).0
          ≡ ok x)
        × (x.total_credits ≡ pos 0)
        × (x.total_debits ≡ pos 0)
        × (x.difference ≡ x.actual_balance -ℤ x.starting_balance)
  unfolding generate_reconciliation_report get_balance_snapshot ◌>>=◌ find_entries given_or_now
      read_balances report_of total_credits_of total_debits_of
  report_blind currency id type start end tenant none_set =
      rw (M.ledger_entries.find-everything (in_range id type start end tenant) w.db.ledger_entries)
        (rw
          (none_kept (in_range id type start end tenant)
            (M.ledger_entries.find everything w.db.ledger_entries) (λ x h. rw h refl) none_set)
          (_, refl, refl, refl, omega int_laws))
