-- ===== src/Store/Memory.antt =====
-- A database in memory, to run the services at concrete inputs.
use mathlib.Core.List.Permᴰ
use red_room_rewards.Prelude.{[]}
use red_room_rewards.Store.{Mongo, Db}
use red_room_rewards.Store.Table.{table, by_text, by_pair}

abbrev pub memory : Mongo
memory = record {
  wallets = table by_text;
  model_wallets = table by_text;
  escrow_items = table by_text;
  ledger_entries = table by_text;
  idempotency_records = table by_pair;
  arrange = λ n es. es;
  arrange-Perm = λ n es. Permᴰ.refl es;
}

abbrev pub empty_db : Db memory
empty_db = record {
  wallets = [];
  model_wallets = [];
  escrow_items = [];
  ledger_entries = [];
  idempotency_records = [];
}
