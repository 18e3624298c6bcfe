-- ===== src/Ledger/Query.antt =====
-- `queryEntries` and `getEntry` of ledger/ledger.service.ts. Entries of one sort key are taken in the
-- order in which the call of the database meets them, which may differ from page to page.
use red_room_rewards.Prelude.{
  ℕ, ◌+◌, min, ltb, ℤ, pos, ◌-ℤ◌, String, str_eq, asks_for, from_date, to_date, or_default, Bool,
  true, ◌&&◌, List, [], ◌∷◌, map, Option, none, some, length, take, drop, sort_by,
}
use red_room_rewards.Domain.{
  AccountType, same_account_type, TransactionType, same_type, TransactionReason, reason_text,
  BalanceState, same_state,
}
use red_room_rewards.Store.{Mongo, Db}
use red_room_rewards.Store.Docs.{LedgerEntry}
use red_room_rewards.Action.{Result, ok, pure, atomically, atomically_at, ◌>>=◌}
use red_room_rewards.Service.{Service}
use red_room_rewards.Ledger.Entries.{map_to_domain}
use red_room_rewards.Ledger.Snapshot.{in_tenant}

pub data SortField : Type 0 where
  timestamp amount : SortField

pub data SortOrder : Type 0 where
  asc desc : SortOrder

pub record LedgerQueryFilter : Type 0 where
  pub account_id : Option String
  pub account_type : Option AccountType
  pub type : Option TransactionType
  pub reason : Option TransactionReason
  pub balance_state : Option BalanceState
  pub escrow_id : Option String
  pub queue_item_id : Option String
  pub feature_type : Option String
  pub start_date : Option ℕ
  pub end_date : Option ℕ
  pub offset : Option ℕ
  pub limit : Option ℕ
  pub sort_by : Option SortField
  pub sort_order : Option SortOrder
  pub tenant_id : Option String

pub record LedgerQueryResult : Type 0 where
  pub entries : List LedgerEntry
  pub total_count : ℕ
  pub offset : ℕ
  pub limit : ℕ
  pub has_more : Bool

-- A condition on a value that is not a text, if it is given.
abbrev pub asks_that : {A : Type 0} → Option A → (A → Bool) → Bool
asks_that none test = true
asks_that (some a) test = test a

-- The query that the method builds.
unfoldable pub matches : LedgerQueryFilter → LedgerEntry → Bool
matches f e =
    in_tenant f.tenant_id e.tenant_id
    && asks_for f.account_id (some e.account_id)
    && asks_that f.account_type (same_account_type e.account_type)
    && asks_that f.type (same_type e.type)
    && asks_that f.reason (λ r. str_eq e.reason (reason_text r))
    && asks_that f.balance_state (same_state e.balance_state)
    && asks_for f.escrow_id e.escrow_id
    && asks_for f.queue_item_id e.queue_item_id
    && asks_for f.feature_type e.feature_type
    && from_date f.start_date e.timestamp
    && to_date f.end_date e.timestamp

-- `Math.min(filter.limit || 100, 1000)`
unfoldable pub page_limit : LedgerQueryFilter → ℕ
page_limit f = min (or_default f.limit 100) 1000

-- `filter.offset || 0`
abbrev pub page_offset : LedgerQueryFilter → ℕ
page_offset f = or_default f.offset 0

abbrev pub field_of : Option SortField → LedgerEntry → ℤ
field_of none e = pos e.timestamp
field_of (some SortField.timestamp) e = pos e.timestamp
field_of (some SortField.amount) e = e.amount

-- Ascending only if that is asked for.
abbrev pub in_order : Option SortOrder → ℤ → ℤ
in_order (some SortOrder.asc) x = x
in_order (some SortOrder.desc) x = pos 0 -ℤ x
in_order none x = pos 0 -ℤ x

unfoldable pub sort_key : LedgerQueryFilter → LedgerEntry → ℤ
sort_key f e = in_order f.sort_order (field_of f.sort_by e)

abbrev pub first_entry : List LedgerEntry → Option LedgerEntry
first_entry [] = none
first_entry (e ∷ es) = some (map_to_domain e)

module _ (M : Mongo) where
  -- The call of a number sorts what it finds.
  unfoldable pub sorted_matches : LedgerQueryFilter → ℕ → Db M → List LedgerEntry
  sorted_matches f n d =
      sort_by (sort_key f) (M.arrange n (M.ledger_entries.find (matches f) d.ledger_entries))

  -- `.sort(sort).skip(offset).limit(limit)`
  unfoldable pub find_page : LedgerQueryFilter → ℕ → Db M → Result (List LedgerEntry) × Db M
  unfolding sorted_matches
  find_page f n d = (ok (take (page_limit f) (drop (page_offset f) (sorted_matches f n d))), d)

  unfoldable pub count_matches : LedgerQueryFilter → Db M → Result ℕ × Db M
  count_matches f d = (ok (length (M.ledger_entries.find (matches f) d.ledger_entries)), d)

  unfoldable pub query_entries : LedgerQueryFilter → Service M LedgerQueryResult
  query_entries f = do
    page ← atomically_at (find_page f)
    total ← atomically (count_matches f)
    pure (record {
      entries = map map_to_domain page;
      total_count = total;
      offset = page_offset f;
      limit = page_limit f;
      has_more = ltb (page_offset f + length page) total;
    })

  unfoldable pub find_entry : String → Option String → Db M → Result (Option LedgerEntry) × Db M
  find_entry entry_id tenant d = (
    ok (
        first_entry (
          M.ledger_entries.find (λ e. in_tenant tenant e.tenant_id && str_eq e.entry_id entry_id)
            d.ledger_entries)),
    d,
  )

  unfoldable pub get_entry : String → Option String → Service M (Option LedgerEntry)
  unfolding find_entry
  get_entry entry_id tenant = atomically (find_entry entry_id tenant)
