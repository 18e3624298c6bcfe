-- ===== src/Ledger/Tests/Reports.antt =====
-- Snapshots and reports at concrete inputs.
use red_room_rewards.Prelude.{pos, ◌-ℤ◌, ◌≡◌, refl, [], ◌∷◌}
use red_room_rewards.Domain.{AccountType}
use red_room_rewards.Store.Docs.{LedgerEntry}
use red_room_rewards.Store.Memory.{memory, empty_db}
use red_room_rewards.Action.{ok, alone}
use red_room_rewards.Service.{State}
use red_room_rewards.Ledger.Entries.{entry_doc}
use red_room_rewards.Ledger.Reconciliation.{ReconciliationReport, generate_reconciliation_report}
use red_room_rewards.Ledger.Reconciliation.Untenanted.{AllUntenanted, report_blind}
use red_room_rewards.Ledger.Tests.{env, start, old_entry}

abbrev newer : LedgerEntry
newer = record old_entry { idempotency_key = "k2"; timestamp = 9; balance_after = pos 25 }

abbrev recorded : State memory
recorded = record start { db = record empty_db { ledger_entries = ("k", old_entry) ∷ [] } }

untenanted : AllUntenanted memory env recorded
unfolding entry_doc
untenanted = (refl, tt)

report_blind_example :
    (x : ReconciliationReport) × ((generate_reconciliation_report memory "points" "ann"
        AccountType.user 0 50 "t"
        (alone env)
        recorded).0
      ≡ ok x)
    × (x.total_credits ≡ pos 0)
    × (x.total_debits ≡ pos 0)
    × (x.difference ≡ x.actual_balance -ℤ x.starting_balance)
report_blind_example =
    report_blind memory env recorded "points" "ann" AccountType.user 0 50 "t" untenanted
