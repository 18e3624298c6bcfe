-- ===== src/Expiration/Tests.antt =====
-- Runs of services/point-expiration.service.ts at concrete inputs.
use red_room_rewards.Prelude.{
  ℕ, pos, ◌-ℤ◌, ◌+ℤ◌, str_eq, ◌≡◌, refl, true, false, [], ◌∷◌, Option, none, some, sort_by,
  sort_onto, insert_by, if◌then◌else◌, neg_ℤ, is_blank,
}
use red_room_rewards.Domain.{
  AccountType, credit, debit, BalanceState, MetaValue, text, other, promotional_award, reason_text,
}
use red_room_rewards.Store.{Db}
use red_room_rewards.Store.Docs.{Wallet, LedgerEntry}
use red_room_rewards.Store.Memory.{memory, empty_db}
use red_room_rewards.Action.{Env, ok, alone}
use red_room_rewards.Service.{State}
use red_room_rewards.Ledger.Pii.{has_email}
use red_room_rewards.Ledger.Entries.{map_to_domain}
use red_room_rewards.Ledger.Entries.Alone.{MakesIds}
use red_room_rewards.Ledger.Query.{page_limit, sorted_matches, matches}
use red_room_rewards.Expiration.{
  Dates, PointExpirationConfig, total_expired, has_expired, answered, process_user_expiration,
}
use red_room_rewards.Expiration.Alone.{CanExpire, details, expire_repeated}

abbrev date_of : MetaValue → Option ℕ
date_of (text s) = if str_eq s "1970-01-01T00:00:01.000Z" then some 1000 else none
date_of other = none

-- All of the test is on one day.
dates-no_email : (t : ℕ) → has_email "1970-01-01T00:00:09.000Z" ≡ false
unfolding has_email
dates-no_email t = refl

abbrev dates : Dates
dates = record {
  of = date_of;
  iso_string = λ t. "1970-01-01T00:00:09.000Z";
  date_key = λ t. "1970-01-01";
  no_email = dates-no_email;
}

abbrev config : PointExpirationConfig
config = record { default_currency = "points"; grace_period_days = 0; ledger_currency = "points" }

abbrev env : Env (Db memory)
env = record { others = λ n d. d; uuid = λ n. "id"; now = λ n. 9000; delivers = λ n. true }

env-MakesIds : MakesIds env
unfolding is_blank
env-MakesIds = record { given = λ n. refl; shown = λ n. refl }

abbrev wallet : Wallet
wallet = record {
  user_id = "ann";
  available_balance = pos 5000;
  escrow_balance = pos 0;
  currency = "points";
  version = 3;
}

-- A credit of 2000 that has expired.
abbrev award : LedgerEntry
award = record {
  entry_id = "e1";
  transaction_id = "t1";
  account_id = "ann";
  account_type = AccountType.user;
  amount = pos 2000;
  type = credit;
  balance_state = BalanceState.available;
  state_transition = "none→available";
  reason = reason_text promotional_award;
  idempotency_key = "k1";
  request_id = "r1";
  balance_before = pos 3000;
  balance_after = pos 5000;
  timestamp = 1;
  currency = "points";
  metadata = some (("expiresAt", text "1970-01-01T00:00:01.000Z") ∷ []);
  escrow_id = none;
  queue_item_id = none;
  feature_type = none;
  correlation_id = some "t1";
  tenant_id = none;
}

abbrev start : State memory
start = record {
  clock = 0;
  db = record empty_db { wallets = ("ann", wallet) ∷ []; ledger_entries = ("k1", award) ∷ [] };
  published = [];
  publish_errors = 0;
}

abbrev earlier : LedgerEntry
earlier = record award {
  entry_id = "e2";
  amount = neg_ℤ (pos 2000);
  type = debit;
  idempotency_key = "expiration-ann-1970-01-01";
  balance_before = pos 5000;
  balance_after = pos 3000;
}

-- The day has its expiration, and the wallet what is left.
abbrev expired : State memory
expired = record start {
  db = record empty_db {
    wallets = ("ann", record wallet { available_balance = pos 3000; version = 4 }) ∷ [];
    ledger_entries = ("k1", award) ∷ ("expiration-ann-1970-01-01", earlier) ∷ [];
  };
}

abbrev left : Wallet
left = record wallet { available_balance = pos 3000; version = 4 }

can_repeat : CanExpire memory dates config "ann" "r" env left expired
unfolding total_expired has_expired sorted_matches matches page_limit sort_by sort_onto insert_by
    map_to_domain ◌+ℤ◌
can_repeat = record { wallet = refl; found = refl; covered = refl }

expire_repeated_example :
    ((process_user_expiration memory dates config "ann" "r" 1 (alone env) expired).0
      ≡ ok (answered (some (details memory dates config "ann" "r" env left expired))))
    × ((process_user_expiration memory dates config "ann" "r" 1 (alone env) expired).1.db
        ≡ record expired.db {
          wallets = ("ann", record wallet { available_balance = pos 1000; version = 5 }) ∷ [];
        })
unfolding total_expired has_expired sorted_matches matches page_limit sort_by sort_onto insert_by
    map_to_domain ◌-ℤ◌ ◌+ℤ◌
expire_repeated_example =
    expire_repeated memory dates config "ann" "r" env left expired 0 earlier env-MakesIds can_repeat
      refl
