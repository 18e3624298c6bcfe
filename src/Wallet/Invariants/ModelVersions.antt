-- ===== src/Wallet/Invariants/ModelVersions.antt =====
-- The versions of the models' wallets of wallets/wallet.service.ts, along any requests.
use red_room_rewards.Prelude.{
  ◌<◌, String, ◌≡◌, refl, ◌⊎◌, inl, inr, Bool, true, some, arith, Option-cases, Bool-cases, str_eq,
  str_eq_iff,
}
use red_room_rewards.Store.{Mongo, Db}
use red_room_rewards.Store.Interface.{get-put_new}
use red_room_rewards.Store.Docs.{ModelWallet}
use red_room_rewards.Action.Keeps.{Preorder}
use red_room_rewards.Ledger.Entries.{insert_entry}
use red_room_rewards.Ledger.Idempotency.{insert_record}
use red_room_rewards.Wallet.Steps.{
  new_model_wallet, create_wallet, update_wallet, create_model_wallet, update_model_wallet,
  create_escrow, delete_escrow, lock_escrow, set_escrow,
}
use red_room_rewards.Wallet.Settle.{credited_model}
use red_room_rewards.Wallet.Guarantees.{WalletSteps}

-- A wallet stays as it is, or is replaced under a higher version.
abbrev Moved : ModelWallet → ModelWallet → Type 0
Moved w w' = (w' ≡ w) ⊎ (w.version < w'.version)

Moved-trans : (u v w : ModelWallet) → Moved u v → Moved v w → Moved u w
Moved-trans u v w (inl p) (inl q) = inl (cc)
Moved-trans u v w (inl p) (inr q) = inr (rw (← p) q)
Moved-trans u v w (inr p) (inl q) = inr (rw q p)
Moved-trans u v w (inr p) (inr q) = inr (omega arith)

pub record ModelVersions {M : Mongo} (d d' : Db M) : Type 0 where
  pub moved :
      (id : String) (w : ModelWallet)
      → M.model_wallets.get id d.model_wallets ≡ some w
      → (w' : ModelWallet) × (M.model_wallets.get id d'.model_wallets ≡ some w') × Moved w w'

pub ModelVersions-Preorder : {M : Mongo} → Preorder {Db = Db M} ModelVersions
ModelVersions-Preorder = record {
  rel_refl = λ d. record { moved = λ id w h. (w, h, inl refl) };
  rel_trans = λ g h. record {
    moved = λ id u p.
        let (v, q, uv) = g.moved id u p in
        let (w, r, vw) = h.moved id v q in (w, r, Moved-trans u v w uv vw);
  };
}

module _ {M : Mongo} where
  same : (d d' : Db M) → d'.model_wallets ≡ d.model_wallets → ModelVersions d d'
  same d d' p = record { moved = λ id w h. (w, rw p h, inl refl) }

  creates : (x : ModelWallet) (d : Db M) → ModelVersions d (create_model_wallet M x d).1
  unfolding create_model_wallet
  creates x d = elim (Option-cases (M.model_wallets.get x.model_id d.model_wallets)) [
    | inl new ↦
        rw (new, create_model_wallet)
          (record {
            moved = λ id w h.
                (w, get-put_new M.model_wallets id x.model_id x w d.model_wallets new h, inl refl);
          })
    | inr (old, found) ↦ rw (found, create_model_wallet) (ModelVersions-Preorder.rel_refl d)
  ]

  puts :
      (id : String) (old w : ModelWallet) (d : Db M)
      → M.model_wallets.get id d.model_wallets ≡ some old
      → old.version < w.version
      → ModelVersions d (record d { model_wallets = M.model_wallets.put id w d.model_wallets })
  puts id old w d found less = record {
    moved = λ j x h. elim (Bool-cases (str_eq j id)) [
      | inl equal ↦
          let e : j ≡ id = (str_eq_iff j id).0 equal in
          (w, rw e (M.model_wallets.get-put_self id w d.model_wallets), inr (ground (arith, e)))
      | inr other ↦ (
        x,
        rw (M.model_wallets.get-put_ne j id w d.model_wallets (λ e. cc ((str_eq_iff j id).1 e))) h,
        inl refl,
      )
    ];
  }

  updates :
      (id : String) (p : ModelWallet → Bool) (f : ModelWallet → ModelWallet) (d : Db M)
      → ((w : ModelWallet) → p w ≡ true → w.version < (f w).version)
      → ModelVersions d (update_model_wallet M id p f d).1
  unfolding update_model_wallet
  updates id p f d raises = elim (Option-cases (M.model_wallets.get id d.model_wallets)) [
    | inl missing ↦ rw (missing, update_model_wallet) (ModelVersions-Preorder.rel_refl d)
    | inr (w, found) ↦ elim (Bool-cases (p w)) [
      | inl fits ↦
          rw (found, update_model_wallet) (rw fits (puts id w (f w) d found (raises w fits)))
      | inr other ↦ rw (found, update_model_wallet) (rw other (ModelVersions-Preorder.rel_refl d))
    ]
  ]

  pub ModelVersions-steps : WalletSteps {M = M} (λ a. Unit {0}) ModelVersions
  unfolding insert_entry insert_record create_wallet update_wallet create_escrow delete_escrow
      lock_escrow set_escrow credited_model
  ModelVersions-steps = record {
    order = ModelVersions-Preorder;
    inserts = λ e d p. same d _ (ground arith);
    records = λ r d. same d _ (ground arith);
    creates = λ id cur d. same d _ (ground arith);
    creates_model = λ id cur d. creates (new_model_wallet id cur) d;
    creates_escrow = λ x d. same d _ (ground arith);
    deletes_escrow = λ id d. same d _ (ground arith);
    locks = λ id st now d. same d _ (ground arith);
    unlocks = λ id d. same d _ (ground arith);
    settles = λ id m d. same d _ (ground arith);
    refunds = λ id d. same d _ (ground arith);
    holds = λ id a r d p. same d _ (ground arith);
    releases = λ id a v d. same d _ (ground arith);
    returns = λ id g t v d p. same d _ (ground arith);
    credits = λ id a r d. updates id _ _ d (λ w h. ground arith);
  }
