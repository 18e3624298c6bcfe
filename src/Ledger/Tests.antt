-- ===== src/Ledger/Tests.antt =====
-- Runs of the ledger service at concrete inputs.
pub mod Reports
pub mod Queries
use red_room_rewards.Prelude.{pos, ◌≡◌, refl, ◌↔◌, [], ◌∷◌, All, true, false, none, some, is_blank}
use red_room_rewards.Domain.{
  user, credit, available, Metadata, text, other, CreateLedgerEntryRequest, duplicate_key,
}
use red_room_rewards.Store.{Db}
use red_room_rewards.Store.Docs.{LedgerEntry}
use red_room_rewards.Store.Memory.{memory, empty_db}
use red_room_rewards.Action.{Env, ok, err, alone, ◌>>=◌}
use red_room_rewards.Service.{State}
use red_room_rewards.Ledger.Pii.{is_pii_field, has_email, pii_error}
use red_room_rewards.Ledger.Pii.Pattern.{IsHarmless}
use red_room_rewards.Ledger.Pii.Scan.{pii_error-none_iff}
use red_room_rewards.Ledger.Grows.{Grows-Preorder}
use red_room_rewards.Ledger.Entries.{correlation_id, state_error, map_to_domain, create_entry}
use red_room_rewards.Ledger.Entries.Alone.{IsAdmissible, new_doc}
use red_room_rewards.Ledger.Idempotency.{claimed, insert_record, claim_idempotency}
use red_room_rewards.Ledger.Idempotency.Claims.{claim_once}

abbrev pub env : Env (Db memory)
env = record { others = λ n d. d; uuid = λ n. "id"; now = λ n. n; delivers = λ n. true }

abbrev pub start : State memory
start = record { clock = 0; db = empty_db; published = []; publish_errors = 0 }

abbrev after_claim : State memory
after_claim = (claim_idempotency memory "k" "hold_escrow" none env start).1

granted : (claim_idempotency memory "k" "hold_escrow" none env start).0 ≡ ok true
unfolding claim_idempotency insert_record claimed ◌>>=◌
granted = refl

claim_once_example :
    (claim_idempotency memory "k" "hold_escrow" (some "t") env after_claim).0 ≡ ok false
claim_once_example =
    claim_once memory "k" "hold_escrow" none (some "t") env env start after_claim granted
      (Grows-Preorder.rel_refl after_claim.db) (record { step = λ n d. Grows-Preorder.rel_refl d })

abbrev pub request : CreateLedgerEntryRequest
request = record {
  transaction_id = some "t1";
  account_id = "ann";
  account_type = user;
  amount = pos 10;
  type = credit;
  balance_state = available;
  state_transition = "external→available";
  reason = "admin_credit";
  idempotency_key = "k";
  request_id = "r";
  balance_before = pos 0;
  balance_after = pos 10;
  currency = none;
  metadata = none;
  escrow_id = none;
  queue_item_id = none;
  feature_type = none;
  correlation_id = none;
}

request-IsAdmissible : IsAdmissible request "t1"
unfolding pii_error state_error correlation_id is_blank
request-IsAdmissible = record {
  state = refl;
  clean = refl;
  transaction = refl;
  transaction_given = refl;
  transaction_shown = refl;
  correlation = refl;
  reason_given = refl;
}

abbrev pub old_entry : LedgerEntry
old_entry = new_doc memory "points" (record request { amount = pos 7 }) "t0" env start

-- The key has an entry of another amount.
abbrev recorded : State memory
recorded = record start { db = record empty_db { ledger_entries = ("k", old_entry) ∷ [] } }

abbrev with_mail : Metadata
with_mail = ("note", other) ∷ ("contact", text "ann@example.org") ∷ []

pii_error-none_iff_example : (pii_error (some with_mail) ≡ none) ↔ All IsHarmless with_mail
pii_error-none_iff_example = pii_error-none_iff with_mail

finds_mail : has_email "to ann@example.org, please" ≡ true
unfolding has_email
finds_mail = refl

passes_handle : has_email "@ann" ≡ false
unfolding has_email
passes_handle = refl

ignores_case : is_pii_field "CreditCard" ≡ true
unfolding is_pii_field
ignores_case = refl
