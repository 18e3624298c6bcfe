-- ===== src/Wallet/Config.antt =====
-- `WalletServiceConfigOptions` without the back-off, which only delays, and with the default
-- currency of the ledger service that the wallet service is given.
use red_room_rewards.Prelude.{ℕ, String}

pub record Config : Type 0 where
  pub max_retry_attempts : ℕ
  pub default_currency : String
  pub ledger_currency : String
