-- ===== src/Domain/Kinds.antt =====
-- The enumerations of wallets/types/domain.types.ts and of the schemas in db/models, with `===` on
-- them, and the metadata that a request carries.
use red_room_rewards.Prelude.{String, Bool, true, false, List}

pub data AccountType : Type 0 where
  user model : AccountType

pub data TransactionType : Type 0 where
  credit debit : TransactionType

pub data BalanceState : Type 0 where
  available escrow earned : BalanceState

-- The `enum` of the escrow schema, which has the intermediate states too.
pub data EscrowStatus : Type 0 where
  held settling settled refunding refunded partial_settling : EscrowStatus

pub data MetaValue : Type 0 where
  text : String → MetaValue
  other : MetaValue

-- `Record<string, unknown>`, as the list of its entries in the order of `Object.keys`.
abbrev pub Metadata : Type 0
Metadata = List (String × MetaValue)

abbrev pub same_account_type : AccountType → AccountType → Bool
same_account_type AccountType.user AccountType.user = true
same_account_type AccountType.model AccountType.model = true
same_account_type AccountType.user AccountType.model = false
same_account_type AccountType.model AccountType.user = false

abbrev pub same_type : TransactionType → TransactionType → Bool
same_type credit credit = true
same_type debit debit = true
same_type credit debit = false
same_type debit credit = false

abbrev pub same_state : BalanceState → BalanceState → Bool
same_state available available = true
same_state available _ = false
same_state escrow escrow = true
same_state escrow _ = false
same_state earned earned = true
same_state earned _ = false

abbrev pub is_held : EscrowStatus → Bool
is_held held = true
is_held _ = false
