-- ===== src/Ledger/Entries.antt =====
-- `createEntry` of ledger/ledger.service.ts, and the reads of single entries.
pub mod Laws
pub mod Posts
pub mod Alone
use red_room_rewards.Prelude.{
  ℕ, String, ◌≡◌, Bool, true, false, not, ◌&&◌, Option, none, some, if◌then◌else◌, str_eq, is_blank,
  is_empty, or_text,
}
use red_room_rewards.Domain.{
  AccountType, BalanceState, same_account_type, same_state, CreateLedgerEntryRequest, Error,
  invalid_balance_state, correlation_id_required, reason_required, duplicate_key,
}
use red_room_rewards.Store.{Mongo, Db}
use red_room_rewards.Store.Docs.{LedgerEntry}
use red_room_rewards.Action.{
  Result, ok, err, pure, throw, lift, atomically, attempt, ◌>>=◌, ◌>>◌, fresh_id, current_time,
}
use red_room_rewards.Service.{Service}
use red_room_rewards.Ledger.Pii.{pii_error}

-- The two tests of the state against the type of the account.
unfoldable pub state_error : AccountType → BalanceState → Option Error
state_error AccountType.user BalanceState.earned = some (invalid_balance_state AccountType.user)
state_error AccountType.model BalanceState.escrow = some (invalid_balance_state AccountType.model)
state_error _ _ = none

-- `throw` where a check has found an error.
abbrev pub reject : Option Error → Result (Unit {0})
reject none = ok tt
reject (some x) = err x

-- The caller's correlation id if it is not blank, or else the transaction's id.
unfoldable pub correlation_id : Option String → String → String
correlation_id none transaction_id = transaction_id
correlation_id (some c) transaction_id = if is_blank c then transaction_id else c

unfoldable pub require_ids : String → String → Result (Unit {0})
require_ids correlation reason =
    if is_blank correlation
    then err correlation_id_required
    else if is_empty reason
    then err reason_required
    else ok tt

-- `entryDoc`. It sets no `tenant_id`.
unfoldable pub entry_doc :
    CreateLedgerEntryRequest → String → String → ℕ → String → String → LedgerEntry
entry_doc r entry_id transaction_id timestamp default_currency correlation = record {
  entry_id = entry_id;
  transaction_id = transaction_id;
  account_id = r.account_id;
  account_type = r.account_type;
  amount = r.amount;
  type = r.type;
  balance_state = r.balance_state;
  state_transition = r.state_transition;
  reason = r.reason;
  idempotency_key = r.idempotency_key;
  request_id = r.request_id;
  balance_before = r.balance_before;
  balance_after = r.balance_after;
  timestamp = timestamp;
  currency = or_text r.currency default_currency;
  metadata = r.metadata;
  escrow_id = r.escrow_id;
  queue_item_id = r.queue_item_id;
  feature_type = r.feature_type;
  correlation_id = some correlation;
  tenant_id = none;
}

-- `mapToDomain`: the domain object has no tenant.
unfoldable pub map_to_domain : LedgerEntry → LedgerEntry
map_to_domain e = record e { tenant_id = none }

module _ (M : Mongo) where
  open M use {ledger_entries as entries}

  -- `LedgerEntryModel.create(entryDoc)` under the unique index on `idempotencyKey`.
  unfoldable pub insert_entry : LedgerEntry → Db M → Result LedgerEntry × Db M
  insert_entry e d = elim (entries.get e.idempotency_key d.ledger_entries) [
    | some old ↦ (err (duplicate_key "idempotencyKey"), d)
    | none ↦ (ok e, record d { ledger_entries = entries.put e.idempotency_key e d.ledger_entries })
  ]

  unfoldable pub find_by_key : String → Db M → Result (Option LedgerEntry) × Db M
  find_by_key key d = (ok (entries.get key d.ledger_entries), d)

  -- The entry that was found, or the error that led to the search.
  unfoldable pub found_or : Error → Option LedgerEntry → Service M LedgerEntry
  found_or x (some e) = pure (map_to_domain e)
  found_or x none = throw x

  -- The `catch` of the insertion.
  unfoldable pub recover : String → Error → Service M LedgerEntry
  recover key (duplicate_key path) =
      if str_eq path "idempotencyKey"
      then (atomically (find_by_key key) >>= found_or (duplicate_key path))
      else throw (duplicate_key path)
  recover key x = throw x

  unfoldable pub inserted : String → Result LedgerEntry → Service M LedgerEntry
  inserted key (ok e) = pure (map_to_domain e)
  inserted key (err x) = recover key x

  -- `request.transactionId || uuidv4()`
  unfoldable pub given_or_fresh : Option String → Service M String
  given_or_fresh none = fresh_id
  given_or_fresh (some t) = if is_empty t then fresh_id else pure t

  unfoldable pub create_entry : String → CreateLedgerEntryRequest → Service M LedgerEntry
  create_entry default_currency r = do
    lift (reject (state_error r.account_type r.balance_state))
    lift (reject (pii_error r.metadata))
    entry_id ← fresh_id
    transaction_id ← given_or_fresh r.transaction_id
    timestamp ← current_time
    let correlation = correlation_id r.correlation_id transaction_id
    lift (require_ids correlation r.reason)
    let doc = entry_doc r entry_id transaction_id timestamp default_currency correlation
    created ← attempt (atomically (insert_entry doc))
    inserted r.idempotency_key created
