-- ===== src/Wallet/Partial/Effects.antt =====
-- The effects and the refusals of a partial settlement that runs alone.
use red_room_rewards.Prelude.{
  Bool-cases, inl, inr, leb_ℤ, arith, ℕ, suc, pos, ◌+ℤ◌, ◌<ℤ◌, ◌≤ℤ◌, abs, ◌-ℤ◌, int_laws, String,
  ◌≡◌, refl, true, Option, none, some, suffixed,
}
use red_room_rewards.Domain.{
  credit, settled, available, earned, is_held, EscrowPartialSettleRequest,
  EscrowPartialSettleResponse, amounts_must_equal_escrow,
}
use red_room_rewards.Store.{Mongo, Db}
use red_room_rewards.Store.Docs.{Wallet, ModelWallet, EscrowItem}
use red_room_rewards.Action.{Env, ok, err, alone, ◌>>=◌}
use red_room_rewards.Service.{State}
use red_room_rewards.Ledger.Entries.Posts.{Posted}
use red_room_rewards.Ledger.Entries.Alone.{MakesIds}
use red_room_rewards.Ledger.Idempotency.Claims.{record_of}
use red_room_rewards.Wallet.Config.{Config}
use red_room_rewards.Wallet.Steps.{require_token}
use red_room_rewards.Wallet.Settle.{credited_model}
use red_room_rewards.Wallet.Refund.{returned_wallet}
use red_room_rewards.Wallet.Partial.{tolerance, partial_locked, partial_settle_escrow}
use red_room_rewards.Wallet.Partial.Alone.{IsClean}
use red_room_rewards.Wallet.Partial.Recording.{
  KeysFree, Finished, partial_response, record_partial_new,
}
use red_room_rewards.Wallet.Partial.Run.{
  Covers, check_differs, CanSettle, user_after, moved_world, partial_locked_new, item_before,
  locked_world, partial_claimed,
}

module _ (M : Mongo) (cfg : Config) (r : EscrowPartialSettleRequest) (e : Env (Db M)) where
  -- What a partial settlement of the item `x`, in the transaction `t`, leaves in the database `d'`.
  pub record IsSplit (x : EscrowItem) (u : Wallet) (m : ModelWallet) (t : String) (w : State M)
      (d' : Db M) : Type 0 where
    pub item :
        M.escrow_items.get r.escrow_id d'.escrow_items
        ≡ some (record x {
          status = settled;
          processed_at = some (e.now (suc (suc w.clock)));
          model_id = some r.model_id;
        })
    pub user :
        M.wallets.get r.user_id d'.wallets
        ≡ some (record u {
          available_balance = u.available_balance +ℤ r.refund_amount;
          escrow_balance = u.escrow_balance -ℤ x.amount;
          version = suc u.version;
        })
    pub model :
        M.model_wallets.get r.model_id d'.model_wallets
        ≡ some (record m {
          earned_balance = m.earned_balance +ℤ r.settle_amount;
          version = suc m.version;
        })
    pub refund_written :
        pos 0 <ℤ r.refund_amount
        → Posted M d'
            (suffixed r.idempotency_key "_refund")
            r.user_id
            available
            credit
            u.available_balance
            r.refund_amount
            t
    pub settle_written :
        pos 0 <ℤ r.settle_amount
        → Posted M d'
            (suffixed r.idempotency_key "_settle")
            r.model_id
            earned
            credit
            m.earned_balance
            r.settle_amount
            t

  -- The identifier of the transaction.
  abbrev pub transaction : State M → String
  transaction w = e.uuid (suc (suc (suc (suc (suc (suc (suc (suc (suc w.clock)))))))))

  -- With an authorization token, metadata without personal data, a reason, a free idempotency key,
  -- a held escrow item whose amount the two parts make up to the tolerance, the wallets of the
  -- user and of the model, and free ledger keys, a partial settlement that runs alone succeeds
  -- with the two new balances, takes the item's amount from the user's escrow balance, gives the
  -- refunded part to the available balance and the settled part to the model, marks the item as
  -- settled, and writes a ledger entry for each part that is positive.
  pub partial_effects :
      (token : Option String) (x : EscrowItem) (u : Wallet) (m : ModelWallet) (w : State M)
      → require_token token ≡ ok tt
      → IsClean r
      → MakesIds e
      → record_of M r.idempotency_key "partial_settle_escrow" w.db ≡ none
      → CanSettle M cfg r e x u m w.db
      → ((timestamp : ℕ) × ((partial_settle_escrow M cfg r token (alone e) w).0
            ≡ ok (partial_response M cfg r e u m (transaction w) timestamp)))
        × IsSplit x u m (transaction w) w (partial_settle_escrow M cfg r token (alone e) w).1.db
  unfolding returned_wallet credited_model
  partial_effects token x u m w given c ids free can =
      let start = partial_claimed M cfg r e token x w given free can.item can.is in
      let middle =
        partial_locked_new M cfg r e x u m (locked_world M cfg r e x w) can.covers can.user
          can.model in
      let done : Finished M cfg r e u m (user_after M cfg r e x u) (item_before M cfg r e x w)
          (moved_world M cfg r e x u m (locked_world M cfg r e x w)) =
        record_partial_new M cfg r e u m (user_after M cfg r e x u) (item_before M cfg r e x w)
          (moved_world M cfg r e x u m (locked_world M cfg r e x w)) c ids
          (record {
            refund_free = can.keys_free.refund_free;
            settle_free = can.keys_free.settle_free;
          })
          (M.escrow_items.get-put_self r.escrow_id (item_before M cfg r e x w) w.db.escrow_items) in
      rw start (
        rw middle (
          (done.timestamp, done.result),
          rw done.left (record {
            item = M.escrow_items.get-put_self _ _ _;
            user = M.wallets.get-put_self _ _ w.db.wallets;
            model = M.model_wallets.get-put_self _ _ w.db.model_wallets;
            refund_written = done.refund_written;
            settle_written = done.settle_written;
          }),
        ))

  -- A partial settlement of a held item whose parts differ from the item's amount by more than the
  -- tolerance is refused when it runs alone: no wallet changes, and the item is left locked, in
  -- the state partial_settling.
  pub partial_mismatch :
      (token : Option String) (x : EscrowItem) (w : State M)
      → require_token token ≡ ok tt
      → record_of M r.idempotency_key "partial_settle_escrow" w.db ≡ none
      → M.escrow_items.get r.escrow_id w.db.escrow_items ≡ some x
      → is_held x.status ≡ true
      → tolerance <ℤ abs (r.refund_amount +ℤ r.settle_amount -ℤ x.amount)
      → ((partial_settle_escrow M cfg r token (alone e) w).0 ≡ err amounts_must_equal_escrow)
        × ((partial_settle_escrow M cfg r token (alone e) w).1.db.wallets ≡ w.db.wallets)
        × ((partial_settle_escrow M cfg r token (alone e) w).1.db.model_wallets
            ≡ w.db.model_wallets)
        × (M.escrow_items.get r.escrow_id
              (partial_settle_escrow M cfg r token (alone e) w).1.db.escrow_items
            ≡ some (item_before M cfg r e x w))
  unfolding partial_locked ◌>>=◌
  partial_mismatch token x w given free found is differs =
      rw (partial_claimed M cfg r e token x w given free found is) (
        rw (check_differs M cfg r e x.amount differs)
          (refl, refl, refl, M.escrow_items.get-put_self _ _ w.db.escrow_items))

  total_change :
      (x : EscrowItem) (u : Wallet) (m : ModelWallet)
      → Covers M cfg r e x.amount
      → abs (
          u.available_balance
          +ℤ r.refund_amount
          +ℤ (u.escrow_balance -ℤ x.amount)
          +ℤ (m.earned_balance +ℤ r.settle_amount)
          -ℤ (u.available_balance +ℤ u.escrow_balance +ℤ m.earned_balance))
        ≤ℤ tolerance
  total_change x u m covers =
      let change : u.available_balance
            +ℤ r.refund_amount
            +ℤ (u.escrow_balance -ℤ x.amount)
            +ℤ (m.earned_balance +ℤ r.settle_amount)
            -ℤ (u.available_balance +ℤ u.escrow_balance +ℤ m.earned_balance)
          ≡ r.refund_amount +ℤ r.settle_amount -ℤ x.amount =
        omega int_laws in
      rw change covers

  -- If a partial settlement that runs alone succeeds, with metadata without personal data, a
  -- reason, a free idempotency key, a held escrow item, the wallets of the user and of the model,
  -- and free ledger keys, then the sum of the user's available and escrow balances and of the
  -- model's balance differs afterwards by at most the tolerance from the sum before.
  pub partial_total :
      (token : Option String) (x : EscrowItem) (u : Wallet) (m : ModelWallet) (w : State M)
      (response : EscrowPartialSettleResponse)
      → require_token token ≡ ok tt
      → IsClean r
      → MakesIds e
      → record_of M r.idempotency_key "partial_settle_escrow" w.db ≡ none
      → M.escrow_items.get r.escrow_id w.db.escrow_items ≡ some x
      → is_held x.status ≡ true
      → M.wallets.get r.user_id w.db.wallets ≡ some u
      → M.model_wallets.get r.model_id w.db.model_wallets ≡ some m
      → KeysFree M cfg r e w.db
      → (partial_settle_escrow M cfg r token (alone e) w).0 ≡ ok response
      → (u' : Wallet) × (m' : ModelWallet) × (M.wallets.get r.user_id
            (partial_settle_escrow M cfg r token (alone e) w).1.db.wallets
          ≡ some u')
        × (M.model_wallets.get r.model_id
              (partial_settle_escrow M cfg r token (alone e) w).1.db.model_wallets
            ≡ some m')
        × (abs (
              u'.available_balance
              +ℤ u'.escrow_balance
              +ℤ m'.earned_balance
              -ℤ (u.available_balance +ℤ u.escrow_balance +ℤ m.earned_balance))
            ≤ℤ tolerance)
  partial_total token x u m w response given c ids free item is user model keys succeeds =
      elim (Bool-cases (leb_ℤ (abs (r.refund_amount +ℤ r.settle_amount -ℤ x.amount)) tolerance)) [
        | inl fits ↦
            let covers : Covers M cfg r e x.amount = ground arith in
            let (answer, left) = partial_effects token x u m w given c ids free (record {
              item = item;
              is = is;
              covers = covers;
              user = user;
              model = model;
              keys_free = keys;
            }) in
            (_, _, left.user, left.model, total_change x u m covers)
        | inr differs ↦
            let refused = (partial_mismatch token x w given free item is (ground arith)).0 in
            absurd (cc (refused, succeeds))
      ]
