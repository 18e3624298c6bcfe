-- ===== src/Service.antt =====
-- The type of a method of the services: an action over the collections that publishes wallet
-- events.
use red_room_rewards.Store.{Mongo, Db}
use red_room_rewards.WalletEvents.{WalletEvent}
use red_room_rewards.Action.{Action, World}

abbrev pub Service : Mongo → Type 0 → Type 0
Service M A = Action (Db M) WalletEvent A

abbrev pub State : Mongo → Type 0
State M = World (Db M) WalletEvent
