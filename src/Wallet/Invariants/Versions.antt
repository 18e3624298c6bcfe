-- ===== src/Wallet/Invariants/Versions.antt =====
-- The versions of the wallets, by which wallets/wallet.service.ts does its optimistic locking,
-- along any requests.
use red_room_rewards.Prelude.{
  ◌<◌, String, ◌≡◌, refl, ◌⊎◌, inl, inr, Bool, true, List, some, arith, Option-cases, Bool-cases,
  str_eq, str_eq_iff,
}
use red_room_rewards.Store.{Mongo, Db}
use red_room_rewards.Store.Interface.{get-put_new}
use red_room_rewards.Store.Docs.{Wallet}
use red_room_rewards.Action.{Env, Respects}
use red_room_rewards.Action.Keeps.{Preorder}
use red_room_rewards.Service.{State}
use red_room_rewards.Ledger.Entries.{insert_entry}
use red_room_rewards.Ledger.Idempotency.{insert_record}
use red_room_rewards.Wallet.Config.{Config}
use red_room_rewards.Wallet.Steps.{
  new_wallet, create_wallet, update_wallet, create_model_wallet, update_model_wallet, create_escrow,
  delete_escrow, lock_escrow, set_escrow,
}
use red_room_rewards.Wallet.Hold.{held_wallet}
use red_room_rewards.Wallet.Settle.{released_wallet}
use red_room_rewards.Wallet.Refund.{returned_wallet}
use red_room_rewards.Wallet.Calls.{Call, perform_all}
use red_room_rewards.Wallet.Invariants.ModelVersions.{ModelVersions, ModelVersions-steps}
use red_room_rewards.Wallet.Guarantees.{WalletSteps, GivesBack-any, perform_all-Guarantees}

-- A wallet stays as it is, or is replaced under a higher version.
abbrev pub Moved : Wallet → Wallet → Type 0
Moved w w' = (w' ≡ w) ⊎ (w.version < w'.version)

pub Moved-trans : (u v w : Wallet) → Moved u v → Moved v w → Moved u w
Moved-trans u v w (inl p) (inl q) = inl (cc)
Moved-trans u v w (inl p) (inr q) = inr (rw (← p) q)
Moved-trans u v w (inr p) (inl q) = inr (rw q p)
Moved-trans u v w (inr p) (inr q) = inr (omega arith)

pub record Versions {M : Mongo} (d d' : Db M) : Type 0 where
  pub moved :
      (id : String) (w : Wallet)
      → M.wallets.get id d.wallets ≡ some w
      → (w' : Wallet) × (M.wallets.get id d'.wallets ≡ some w') × Moved w w'

pub Versions-Preorder : {M : Mongo} → Preorder {Db = Db M} Versions
Versions-Preorder = record {
  rel_refl = λ d. record { moved = λ id w h. (w, h, inl refl) };
  rel_trans = λ g h. record {
    moved = λ id u p.
        let (v, q, uv) = g.moved id u p in
        let (w, r, vw) = h.moved id v q in (w, r, Moved-trans u v w uv vw);
  };
}

module _ {M : Mongo} where
  same-Versions : (d d' : Db M) → d'.wallets ≡ d.wallets → Versions d d'
  same-Versions d d' p = record { moved = λ id w h. (w, rw p h, inl refl) }

  create_wallet-Versions : (x : Wallet) (d : Db M) → Versions d (create_wallet M x d).1
  unfolding create_wallet
  create_wallet-Versions x d = elim (Option-cases (M.wallets.get x.user_id d.wallets)) [
    | inl new ↦
        rw (new, create_wallet)
          (record {
            moved = λ id w h. (w, get-put_new M.wallets id x.user_id x w d.wallets new h, inl refl);
          })
    | inr (old, found) ↦ rw (found, create_wallet) (Versions-Preorder.rel_refl d)
  ]

  put-Versions :
      (id : String) (old w : Wallet) (d : Db M)
      → M.wallets.get id d.wallets ≡ some old
      → old.version < w.version
      → Versions d (record d { wallets = M.wallets.put id w d.wallets })
  put-Versions id old w d found less = record {
    moved = λ j x h. elim (Bool-cases (str_eq j id)) [
      | inl same ↦
          let e : j ≡ id = (str_eq_iff j id).0 same in
          (w, rw e (M.wallets.get-put_self id w d.wallets), inr (ground (arith, e)))
      | inr other ↦ (
        x,
        rw (M.wallets.get-put_ne j id w d.wallets (λ e. cc ((str_eq_iff j id).1 e))) h,
        inl refl,
      )
    ];
  }

  pub update_wallet-Versions :
      (id : String) (p : Wallet → Bool) (f : Wallet → Wallet) (d : Db M)
      → ((w : Wallet) → p w ≡ true → w.version < (f w).version)
      → Versions d (update_wallet M id p f d).1
  unfolding update_wallet
  update_wallet-Versions id p f d raises = elim (Option-cases (M.wallets.get id d.wallets)) [
    | inl missing ↦ rw (missing, update_wallet) (Versions-Preorder.rel_refl d)
    | inr (w, found) ↦ elim (Bool-cases (p w)) [
      | inl fits ↦
          rw (found, update_wallet) (rw fits (put-Versions id w (f w) d found (raises w fits)))
      | inr other ↦ rw (found, update_wallet) (rw other (Versions-Preorder.rel_refl d))
    ]
  ]

  pub Versions-steps : WalletSteps {M = M} (λ a. Unit {0}) Versions
  unfolding insert_entry insert_record create_model_wallet update_model_wallet create_escrow
      delete_escrow lock_escrow set_escrow held_wallet released_wallet returned_wallet
  Versions-steps = record {
    order = Versions-Preorder;
    inserts = λ e d p. same-Versions d _ (ground arith);
    records = λ r d. same-Versions d _ (ground arith);
    creates = λ id cur d. create_wallet-Versions (new_wallet id cur) d;
    creates_model = λ id cur d. same-Versions d _ (ground arith);
    creates_escrow = λ x d. same-Versions d _ (ground arith);
    deletes_escrow = λ id d. same-Versions d _ (ground arith);
    locks = λ id st now d. same-Versions d _ (ground arith);
    unlocks = λ id d. same-Versions d _ (ground arith);
    settles = λ id m d. same-Versions d _ (ground arith);
    refunds = λ id d. same-Versions d _ (ground arith);
    holds = λ id a r d p. update_wallet-Versions id _ _ d (λ w h. ground arith);
    releases = λ id a v d. update_wallet-Versions id _ _ d (λ w h. ground arith);
    returns = λ id g t v d p. update_wallet-Versions id _ _ d (λ w h. ground arith);
    credits = λ id a r d. same-Versions d _ (ground arith);
  }

  -- No user's or model's wallet is deleted, and one that differs from what it was has a higher
  -- version: after any requests, among steps of others that keep to the same rule.
  pub perform_all-Versions :
      (cfg : Config) (cs : List Call) (e : Env (Db M)) (w : State M)
      → Respects Versions e
      → Respects ModelVersions e
      → Versions w.db (perform_all M cfg cs e w).1.db
        × ModelVersions w.db (perform_all M cfg cs e w).1.db
  perform_all-Versions cfg cs e w users models = (
    (perform_all-Guarantees Versions-steps cfg cs (GivesBack-any cs)).at e w users,
    (perform_all-Guarantees ModelVersions-steps cfg cs (GivesBack-any cs)).at e w models,
  )
