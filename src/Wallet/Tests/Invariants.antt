-- ===== src/Wallet/Tests/Invariants.antt =====
-- The invariants, on a refund, a hold and a settlement from one state.
use red_room_rewards.Prelude.{pos, ◌+ℤ◌, ◌≡◌, List, [], ◌∷◌, arith, str_eq, Bool-cases, inl, inr}
use red_room_rewards.Store.Memory.{memory}
use red_room_rewards.Ledger.Grows.{Grows, Grows-Preorder}
use red_room_rewards.Wallet.Calls.{Call, hold, settle, refund, perform_all}
use red_room_rewards.Wallet.Invariants.Append.{perform_all-Grows}
use red_room_rewards.Wallet.Invariants.Versions.{Versions, Versions-Preorder, perform_all-Versions}
use red_room_rewards.Wallet.Invariants.ModelVersions.{ModelVersions, ModelVersions-Preorder}
use red_room_rewards.Wallet.Invariants.NonNegative.{NonNegative, perform_all-NonNegative}
use red_room_rewards.Wallet.Invariants.Wealth.{Fair-Preorder, wealth_of, perform_all-wealth}
use red_room_rewards.Wallet.Invariants.Recordable.{IsClean, perform_all-Clean}
use red_room_rewards.Wallet.Tests.{
  config, env, start, hold_request, settle_request, refund_request, token,
}

abbrev calls : List Call
calls = refund refund_request token ∷ hold hold_request ∷ settle settle_request token ∷ []

abbrev holds_and_refunds : List Call
holds_and_refunds = refund refund_request token ∷ hold hold_request ∷ []

perform_all-Grows_example : Grows start.db (perform_all memory config calls env start).1.db
perform_all-Grows_example =
    perform_all-Grows config calls env start (record { step = λ n d. Grows-Preorder.rel_refl d })

perform_all-Versions_example :
    Versions start.db (perform_all memory config calls env start).1.db
    × ModelVersions start.db (perform_all memory config calls env start).1.db
perform_all-Versions_example =
    perform_all-Versions config calls env start
      (record { step = λ n d. Versions-Preorder.rel_refl d })
      (record { step = λ n d. ModelVersions-Preorder.rel_refl d })

start-NonNegative : NonNegative start.db
start-NonNegative = record {
  solvent = λ id w h. elim (Bool-cases (str_eq id "ann")) [
    | inl same ↦ ground arith
    | inr other ↦ ground arith
  ];
}

perform_all-NonNegative_example : NonNegative (perform_all memory config calls env start).1.db
perform_all-NonNegative_example =
    perform_all-NonNegative config calls env start (omega arith, (tt, (tt, tt)))
      (record { step = λ n d h. h }) start-NonNegative

perform_all-wealth_example :
    wealth_of "ann" (perform_all memory config holds_and_refunds env start).1.db ≡ pos 7000
unfolding ◌+ℤ◌
perform_all-wealth_example =
    perform_all-wealth config holds_and_refunds env start "ann" (tt, (tt, tt))
      (record { step = λ n d. Fair-Preorder.rel_refl d })

start-IsClean : IsClean start.db
start-IsClean = record { proper = λ k e h. absurd (cc) }

perform_all-Clean_example : IsClean (perform_all memory config calls env start).1.db
perform_all-Clean_example =
    perform_all-Clean config calls env start (record { step = λ n d h. h }) start-IsClean
