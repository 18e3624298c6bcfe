-- ===== src/Wallet/Invariants/NonNegative.antt =====
-- The sign of the available balances, along any requests to wallets/wallet.service.ts.
use red_room_rewards.Prelude.{
  true, pos, ◌≤ℤ◌, int_laws, String, ◌≡◌, inl, inr, Bool, List, some, All, arith, Option-cases,
  Bool-cases, str_eq, str_eq_iff,
}
use red_room_rewards.Store.{Mongo, Db}
use red_room_rewards.Store.Docs.{Wallet}
use red_room_rewards.Action.{Env, Respects}
use red_room_rewards.Action.Keeps.{Preorder}
use red_room_rewards.Service.{State}
use red_room_rewards.Ledger.Entries.{insert_entry}
use red_room_rewards.Ledger.Idempotency.{insert_record}
use red_room_rewards.Wallet.Config.{Config}
use red_room_rewards.Wallet.Steps.{
  new_wallet, create_wallet, update_wallet, create_model_wallet, update_model_wallet, create_escrow,
  delete_escrow, lock_escrow, set_escrow,
}
use red_room_rewards.Wallet.Hold.{check_balance, held_wallet}
use red_room_rewards.Wallet.Settle.{released_wallet}
use red_room_rewards.Wallet.Refund.{returned_wallet}
use red_room_rewards.Wallet.Calls.{Call, perform_all}
use red_room_rewards.Wallet.Guarantees.{WalletSteps, GivesBack, perform_all-Guarantees}

abbrev pub Solvent : Wallet → Type 0
Solvent w = pos 0 ≤ℤ w.available_balance

pub record NonNegative {M : Mongo} (d : Db M) : Type 0 where
  pub solvent : (id : String) (w : Wallet) → M.wallets.get id d.wallets ≡ some w → Solvent w

-- A step keeps the invariant.
abbrev pub StaysNonNegative : {M : Mongo} → Db M → Db M → Type 0
StaysNonNegative d d' = NonNegative d → NonNegative d'

pub StaysNonNegative-Preorder : {M : Mongo} → Preorder {Db = Db M} StaysNonNegative
StaysNonNegative-Preorder = record { rel_refl = λ d h. h; rel_trans = λ g h n. h (g n) }

module _ {M : Mongo} where
  same-NonNegative : (d d' : Db M) → d'.wallets ≡ d.wallets → StaysNonNegative d d'
  same-NonNegative d d' p n = record { solvent = λ id w h. n.solvent id w (rw p at h) }

  put-NonNegative :
      (id : String) (w : Wallet) (d : Db M)
      → Solvent w
      → StaysNonNegative d (record d { wallets = M.wallets.put id w d.wallets })
  put-NonNegative id w d s n = record {
    solvent = λ j x h. elim (Bool-cases (str_eq j id)) [
      | inl same ↦
          let e : j ≡ id = (str_eq_iff j id).0 same in
          ground (arith, e, M.wallets.get-put_self id w d.wallets)
      | inr other ↦
          n.solvent j x
            (rw (M.wallets.get-put_ne j id w d.wallets (λ e. cc ((str_eq_iff j id).1 e))) at h)
    ];
  }

  create_wallet-NonNegative :
      (x : Wallet) (d : Db M) → Solvent x → StaysNonNegative d (create_wallet M x d).1
  unfolding create_wallet
  create_wallet-NonNegative x d s = elim (Option-cases (M.wallets.get x.user_id d.wallets)) [
    | inl new ↦ rw (new, create_wallet) (put-NonNegative x.user_id x d s)
    | inr (old, found) ↦ rw (found, create_wallet) (λ n. n)
  ]

  pub update_wallet-NonNegative :
      (id : String) (p : Wallet → Bool) (f : Wallet → Wallet) (d : Db M)
      → ((w : Wallet) → p w ≡ true → Solvent w → Solvent (f w))
      → StaysNonNegative d (update_wallet M id p f d).1
  unfolding update_wallet
  update_wallet-NonNegative id p f d keeps = elim (Option-cases (M.wallets.get id d.wallets)) [
    | inl missing ↦ rw (missing, update_wallet) (λ n. n)
    | inr (w, found) ↦ elim (Bool-cases (p w)) [
      | inl fits ↦
          rw (found, update_wallet)
            (rw fits (λ n. put-NonNegative id (f w) d (keeps w fits (n.solvent id w found)) n))
      | inr other ↦ rw (found, update_wallet) (rw other (λ n. n))
    ]
  ]

  pub NonNegative-steps : WalletSteps {M = M} (λ a. pos 0 ≤ℤ a) StaysNonNegative
  unfolding insert_entry insert_record create_model_wallet update_model_wallet create_escrow
      delete_escrow lock_escrow set_escrow held_wallet released_wallet returned_wallet check_balance
  NonNegative-steps = record {
    order = StaysNonNegative-Preorder;
    inserts = λ e d p. same-NonNegative d _ (ground arith);
    records = λ r d. same-NonNegative d _ (ground arith);
    creates = λ id cur d. create_wallet-NonNegative (new_wallet id cur) d (omega arith);
    creates_model = λ id cur d. same-NonNegative d _ (ground arith);
    creates_escrow = λ x d. same-NonNegative d _ (ground arith);
    deletes_escrow = λ id d. same-NonNegative d _ (ground arith);
    locks = λ id st now d. same-NonNegative d _ (ground arith);
    unlocks = λ id d. same-NonNegative d _ (ground arith);
    settles = λ id m d. same-NonNegative d _ (ground arith);
    refunds = λ id d. same-NonNegative d _ (ground arith);
    holds = λ id a r d p. update_wallet-NonNegative id _ _ d (λ w fits h. grind int_laws);
    releases = λ id a v d. update_wallet-NonNegative id _ _ d (λ w fits h. h);
    returns = λ id g t v d p. update_wallet-NonNegative id _ _ d (λ w fits h. grind int_laws);
    credits = λ id a r d. same-NonNegative d _ (ground arith);
  }

  -- If no available balance is negative, then none is after any requests whose refunds give back
  -- amounts of at least zero, among steps of others that keep it so.
  pub perform_all-NonNegative :
      (cfg : Config) (cs : List Call) (e : Env (Db M)) (w : State M)
      → All (GivesBack (λ a. pos 0 ≤ℤ a)) cs
      → Respects StaysNonNegative e
      → NonNegative w.db
      → NonNegative (perform_all M cfg cs e w).1.db
  perform_all-NonNegative cfg cs e w a r =
      (perform_all-Guarantees NonNegative-steps cfg cs a).at e w r
