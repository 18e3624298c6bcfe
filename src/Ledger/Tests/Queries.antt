-- ===== src/Ledger/Tests/Queries.antt =====
-- Queries at concrete inputs.
use red_room_rewards.Prelude.{
  ◌-ℤ◌, ◌≡◌, refl, [], ◌∷◌, map, none, some, sort_by, sort_onto, insert_by,
}
use red_room_rewards.Store.Docs.{LedgerEntry}
use red_room_rewards.Store.Memory.{memory, empty_db}
use red_room_rewards.Action.{ok, alone, atomically}
use red_room_rewards.Service.{State}
use red_room_rewards.Ledger.Entries.{entry_doc, map_to_domain}
use red_room_rewards.Ledger.Query.{
  LedgerQueryFilter, sort_key, sorted_matches, matches, find_entry, get_entry,
}
use red_room_rewards.Ledger.Tests.{env, start, old_entry}

abbrev later : LedgerEntry
later = record old_entry { entry_id = "e2"; idempotency_key = "k2"; timestamp = 9 }

abbrev two : State memory
two = record start {
  db = record empty_db { ledger_entries = ("k", old_entry) ∷ ("k2", later) ∷ [] };
}

abbrev anns : LedgerQueryFilter
anns = record {
  account_id = some "ann";
  account_type = none;
  type = none;
  reason = none;
  balance_state = none;
  escrow_id = none;
  queue_item_id = none;
  feature_type = none;
  start_date = none;
  end_date = none;
  offset = none;
  limit = some 1;
  sort_by = none;
  sort_order = none;
  tenant_id = none;
}

-- The newest entry comes first.
newest_first :
    map (λ e. e.entry_id) (sorted_matches memory anns 0 two.db) ≡ "e2" ∷ old_entry.entry_id ∷ []
unfolding sorted_matches matches sort_key entry_doc sort_by sort_onto insert_by ◌-ℤ◌
newest_first = refl

found : (get_entry memory "e2" none (alone env) two).0 ≡ ok (some later)
unfolding get_entry find_entry entry_doc map_to_domain atomically
found = refl
