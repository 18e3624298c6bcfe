-- ===== src/Wallet/Invariants/Wealth.antt =====
-- The sum of a user's balances along holds and refunds of wallets/wallet.service.ts. The balances
-- that a hold writes are computed from the wallet that it read, so that it depends on the
-- optimistic lock.
use red_room_rewards.Prelude.{
  ℤ, ◌+ℤ◌, int_laws, String, ◌≡◌, refl, inl, inr, Bool, true, List, [], ◌∷◌, some, All, arith,
  Option-cases, Bool-cases, str_eq, str_eq_iff, ◌==◌,
}
use red_room_rewards.Store.{Mongo, Db}
use red_room_rewards.Store.Docs.{Wallet}
use red_room_rewards.Store.Interface.{measure}
use red_room_rewards.Action.{Env, Respects, ok}
use red_room_rewards.Action.Keeps.{
  Preorder, Guarantees, Guarantees-pure, Guarantees-bind, Guarantees-read, Guarantees-swallow,
}
use red_room_rewards.Service.{State}
use red_room_rewards.Ledger.Entries.{insert_entry}
use red_room_rewards.Ledger.Idempotency.{insert_record}
use red_room_rewards.Wallet.Config.{Config}
use red_room_rewards.Wallet.Steps.{
  new_wallet, create_wallet, update_wallet, create_escrow, delete_escrow, lock_escrow, set_escrow,
  find_wallet, find_model_wallet,
}
use red_room_rewards.Wallet.Hold.{check_balance, held_wallet}
use red_room_rewards.Wallet.Refund.{returned_wallet}
use red_room_rewards.Wallet.Balance.{get_user_balance, get_model_balance}
use red_room_rewards.Wallet.Calls.{
  Call, hold, settle, refund, partial_settle, user_balance, model_balance, perform, perform_all,
}
use red_room_rewards.Wallet.Guarantees.{HoldSteps, RefundSteps, hold-Guarantees, refund-Guarantees}
use red_room_rewards.Wallet.Invariants.Versions.{
  Moved, Moved-trans, Versions, Versions-Preorder, Versions-steps,
}

-- All that a user has: the available balance and the one in escrow.
abbrev pub wealth : Wallet → ℤ
wealth w = w.available_balance +ℤ w.escrow_balance

-- The update of a hold goes through only on the wallet that was read.
hold-kept :
    (amount : ℤ) (read w : Wallet)
    → Moved read w
    → (w.version == read.version) ≡ true
    → wealth (held_wallet amount read w) ≡ wealth w
unfolding held_wallet
hold-kept amount read w (inl same) h = rw same (omega int_laws)
hold-kept amount read w (inr newer) h = absurd (ground arith)

module _ {M : Mongo} where
  abbrev pub wealth_of : String → Db M → ℤ
  wealth_of id d = measure wealth (M.wallets.get id d.wallets)

  pub record Fair (d d' : Db M) : Type 0 where
    pub versions : Versions d d'
    pub kept : (id : String) → wealth_of id d' ≡ wealth_of id d

  pub Fair-Preorder : Preorder Fair
  Fair-Preorder = record {
    rel_refl = λ d. record { versions = Versions-Preorder.rel_refl d; kept = λ id. refl };
    rel_trans = λ g h. record {
      versions = Versions-Preorder.rel_trans g.versions h.versions;
      kept = λ id. cc (h.kept id, g.kept id);
    };
  }

  same-Fair : (d d' : Db M) → Versions d d' → d'.wallets ≡ d.wallets → Fair d d'
  same-Fair d d' v p = record { versions = v; kept = λ id. rw p refl }

  -- A wallet that has been read is still there, as it was or under a higher version.
  abbrev Seen : String → Wallet → Db M → Type 0
  Seen id read d = (w : Wallet) × (M.wallets.get id d.wallets ≡ some w) × Moved read w

  put-kept :
      (id : String) (w : Wallet) (d : Db M)
      → wealth w ≡ wealth_of id d
      → (j : String)
      → wealth_of j (record d { wallets = M.wallets.put id w d.wallets }) ≡ wealth_of j d
  put-kept id w d h j = elim (Bool-cases (str_eq j id)) [
    | inl same ↦
        let e : j ≡ id = (str_eq_iff j id).0 same in
        rw e (rw (M.wallets.get-put_self id w d.wallets) h)
    | inr other ↦ rw (M.wallets.get-put_ne j id w d.wallets (λ e. cc ((str_eq_iff j id).1 e)))
  ]

  create_wallet-kept :
      (id currency : String) (d : Db M) (j : String)
      → wealth_of j (create_wallet M (new_wallet id currency) d).1 ≡ wealth_of j d
  unfolding create_wallet
  create_wallet-kept id currency d j = elim (Option-cases (M.wallets.get id d.wallets)) [
    | inl new ↦
        rw (new, create_wallet) (put-kept id (new_wallet id currency) d (rw new (omega int_laws)) j)
    | inr (old, found) ↦ rw (found, create_wallet)
  ]

  update_wallet-kept :
      (id : String) (p : Wallet → Bool) (f : Wallet → Wallet) (d : Db M)
      → ((w : Wallet) → M.wallets.get id d.wallets ≡ some w → p w ≡ true → wealth (f w) ≡ wealth w)
      → (j : String) → wealth_of j (update_wallet M id p f d).1 ≡ wealth_of j d
  unfolding update_wallet
  update_wallet-kept id p f d keeps j = elim (Option-cases (M.wallets.get id d.wallets)) [
    | inl missing ↦ rw (missing, update_wallet)
    | inr (w, found) ↦ elim (Bool-cases (p w)) [
      | inl fits ↦
          rw (found, update_wallet)
            (rw fits (put-kept id (f w) d (rw found (keeps w found fits)) j))
      | inr other ↦ rw (found, update_wallet) (rw other)
    ]
  ]

  holds-Fair :
      (id : String) (amount : ℤ) (read : Wallet) (d : Db M)
      → check_balance amount read ≡ ok tt
      → Seen id read d
      → Fair d (update_wallet M id (λ w. w.version == read.version) (held_wallet amount read) d).1
  holds-Fair id amount read d passed (w, found, moved) = record {
    versions = Versions-steps.holds id amount read d passed;
    kept =
        update_wallet-kept id _ _ d
          (λ v here fits. let same : w ≡ v = cc in hold-kept amount read v (rw same at moved) fits);
  }

  Fair-hold_steps : HoldSteps {M = M} Seen Fair
  unfolding insert_entry insert_record create_escrow delete_escrow
  Fair-hold_steps = record {
    order = Fair-Preorder;
    inserts = λ e d p. same-Fair d _ (Versions-steps.inserts e d p) (ground arith);
    records = λ r d. same-Fair d _ (Versions-steps.records r d) (ground arith);
    creates = λ id cur d. record {
      versions = Versions-steps.creates id cur d;
      kept = create_wallet-kept id cur d;
    };
    creates_escrow = λ x d. same-Fair d _ (Versions-steps.creates_escrow x d) (ground arith);
    deletes_escrow = λ id d. same-Fair d _ (Versions-steps.deletes_escrow id d) (ground arith);
    holds = holds-Fair;
    seen_stable = λ id read d d' g (w, found, moved).
        let (w', found', moved') = g.versions.moved id w found in
        (w', found', Moved-trans read w w' moved moved');
    seen_found = λ id w d h. (w, h, inl refl);
  }

  Fair-refund_steps : RefundSteps {M = M} (λ a. Unit {0}) Fair
  unfolding insert_entry insert_record lock_escrow set_escrow returned_wallet
  Fair-refund_steps = record {
    order = Fair-Preorder;
    inserts = λ e d p. same-Fair d _ (Versions-steps.inserts e d p) (ground arith);
    records = λ r d. same-Fair d _ (Versions-steps.records r d) (ground arith);
    locks = λ id st now d. same-Fair d _ (Versions-steps.locks id st now d) (ground arith);
    unlocks = λ id d. same-Fair d _ (Versions-steps.unlocks id d) (ground arith);
    refunds = λ id d. same-Fair d _ (Versions-steps.refunds id d) (ground arith);
    returns = λ id a v d p. record {
      versions = Versions-steps.returns id a a v d p;
      kept = update_wallet-kept id _ _ d (λ w here fits. omega int_laws);
    };
  }

-- Holds, refunds and readings of balances.
abbrev pub HoldsOrRefunds : Call → Type 0
HoldsOrRefunds (settle r t) = ⊥
HoldsOrRefunds (partial_settle r t) = ⊥
HoldsOrRefunds _ = Unit

module _ {M : Mongo} (cfg : Config) where
  perform-Fair : (c : Call) → HoldsOrRefunds c → Guarantees Fair (perform M cfg c)
  unfolding perform get_user_balance get_model_balance find_wallet find_model_wallet
  perform-Fair (hold r) h =
      Guarantees-swallow Fair-Preorder _ (hold-Guarantees Fair-hold_steps cfg r)
  perform-Fair (settle r t) h = absurd h
  perform-Fair (refund r t) h =
      Guarantees-swallow Fair-Preorder _ (refund-Guarantees Fair-refund_steps cfg r t tt)
  perform-Fair (partial_settle r t) h = absurd h
  perform-Fair (user_balance id) h = Guarantees-swallow Fair-Preorder _ (
      Guarantees-bind Fair-Preorder _ _ (Guarantees-read Fair-Preorder _)
        (λ x. Guarantees-pure Fair-Preorder _))
  perform-Fair (model_balance id) h = Guarantees-swallow Fair-Preorder _ (
      Guarantees-bind Fair-Preorder _ _ (Guarantees-read Fair-Preorder _)
        (λ x. Guarantees-pure Fair-Preorder _))

  perform_all-Guarantees :
      (cs : List Call) → All HoldsOrRefunds cs → Guarantees Fair (perform_all M cfg cs)
  unfolding perform_all
  perform_all-Guarantees [] h = Guarantees-pure Fair-Preorder tt
  perform_all-Guarantees (c ∷ cs) h =
      Guarantees-bind Fair-Preorder _ _ (perform-Fair c h.0) (λ _. perform_all-Guarantees cs h.1)

  -- After any holds and refunds, among steps of others that raise the version of what they write and
  -- leave each user's total as it is, each user's available and escrow balances have the same sum as
  -- before.
  pub perform_all-wealth :
      (cs : List Call) (e : Env (Db M)) (w : State M) (id : String)
      → All HoldsOrRefunds cs
      → Respects Fair e
      → wealth_of id (perform_all M cfg cs e w).1.db ≡ wealth_of id w.db
  perform_all-wealth cs e w id h r = ((perform_all-Guarantees cs h).at e w r).kept id
