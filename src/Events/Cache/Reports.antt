-- ===== src/Events/Cache/Reports.antt =====
-- What the events of events/types.ts report of an account, independent of the cache: its balances and
-- how many events mention it.
use red_room_rewards.Prelude.{
  ℕ, suc, ◌+◌, ℤ, pos, String, str_eq, Bool, true, false, List, [], ◌∷◌, Option, none, some,
  if◌then◌else◌, or_else,
}
use red_room_rewards.Domain.{AccountType, BalanceState, available, escrow, earned}
use red_room_rewards.Events.Types.{BalanceUpdatedEvent, Payload, RewardEvent}

-- The balances that one event gives.
pub record Report : Type 0 where
  pub available : Option ℤ
  pub escrow : Option ℤ
  pub earned : Option ℤ

abbrev pub of_state : BalanceState → ℤ → Report
of_state available after = record { available = some after; escrow = none; earned = none }
of_state escrow after = record { available = none; escrow = some after; earned = none }
of_state earned after = record { available = none; escrow = none; earned = some after }

abbrev pub of_balance : String → AccountType → BalanceUpdatedEvent → Option Report
of_balance id AccountType.user e = elim e.account_type [
  | AccountType.user ↦
      if str_eq id e.account_id then some (of_state e.balance_state e.balance_after) else none
  | AccountType.model ↦ none
]
of_balance id AccountType.model e = elim e.account_type [
  | AccountType.user ↦ none
  | AccountType.model ↦
      if str_eq id e.account_id then some (of_state e.balance_state e.balance_after) else none
]

abbrev pub of_user : String → AccountType → String → ℤ → ℤ → Option Report
of_user id AccountType.user user_id in_available in_escrow =
    if str_eq id user_id
    then some (record { available = some in_available; escrow = some in_escrow; earned = none })
    else none
of_user id AccountType.model user_id in_available in_escrow = none

abbrev pub of_model : String → AccountType → String → ℤ → Option Report
of_model id AccountType.user model_id in_earned = none
of_model id AccountType.model model_id in_earned =
    if str_eq id model_id
    then some (record { available = none; escrow = none; earned = some in_earned })
    else none

-- The last report of each balance, zero where there is none, the number of events that mention the
-- account, and the time of the last of them.
pub record Summary : Type 0 where
  pub mentions : ℕ
  pub available : ℤ
  pub escrow : ℤ
  pub earned : ℤ
  pub time : ℕ

abbrev pub unmentioned : Summary
unmentioned = record { mentions = 0; available = pos 0; escrow = pos 0; earned = pos 0; time = 0 }

abbrev pub note : ℕ → Option Report → Summary → Summary
note at none s = s
note at (some r) s = record {
  mentions = suc s.mentions;
  available = or_else r.available s.available;
  escrow = or_else r.escrow s.escrow;
  earned = or_else r.earned s.earned;
  time = at;
}

abbrev pub note_payload : String → AccountType → ℕ → Payload → Summary → Summary
note_payload id type at (Payload.balance_updated e) s = note at (of_balance id type e) s
note_payload id type at (Payload.escrow_held e) s =
    note at (of_user id type e.user_id e.user_available_balance e.user_escrow_balance) s
note_payload id type at (Payload.escrow_settled e) s =
    note at (of_model id type e.model_id e.model_earned_balance) s
note_payload id type at (Payload.escrow_refunded e) s =
    note at (of_user id type e.user_id e.user_available_balance e.user_escrow_balance) s
note_payload id type at (Payload.escrow_partial_settled e) s =
    note at (of_model id type e.model_id e.model_earned_balance)
      (note at (of_user id type e.user_id e.user_available_balance e.user_escrow_balance) s)
note_payload id type at (Payload.ledger_entry_created e) s = s

unfoldable pub summary_from : String → AccountType → Summary → List RewardEvent → Summary
summary_from id type s [] = s
summary_from id type s (e ∷ es) =
    summary_from id type (note_payload id type e.base.timestamp e.payload s) es

unfoldable pub summary : String → AccountType → List RewardEvent → Summary
summary id type es = summary_from id type unmentioned es

-- A user has no earned balance, and a model no other.
abbrev pub suits : AccountType → BalanceState → Bool
suits AccountType.user earned = false
suits AccountType.user _ = true
suits AccountType.model earned = true
suits AccountType.model _ = false

abbrev pub is_suited : Payload → Bool
is_suited (Payload.balance_updated e) = suits e.account_type e.balance_state
is_suited _ = true

-- How many accounts an event mentions.
abbrev pub accounts_of : Payload → ℕ
accounts_of (Payload.escrow_partial_settled e) = 2
accounts_of (Payload.ledger_entry_created e) = 0
accounts_of _ = 1

abbrev pub accounts_of_all : List RewardEvent → ℕ
accounts_of_all [] = 0
accounts_of_all (e ∷ es) = accounts_of e.payload + accounts_of_all es
