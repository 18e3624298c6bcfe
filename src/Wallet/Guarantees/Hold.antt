-- ===== src/Wallet/Guarantees/Hold.antt =====
-- The guarantees of `holdInEscrow`.
use red_room_rewards.Prelude.{ℕ, zero, suc, String, ◌≡◌, refl, arith, Option, none, some}
use red_room_rewards.Domain.{optimistic_lock, EscrowHoldResponse, EscrowHoldRequest}
use red_room_rewards.Store.{Mongo, Db}
use red_room_rewards.Store.Docs.{Wallet}
use red_room_rewards.Action.{Result, ok, err}
use red_room_rewards.Action.Triples.{
  Triple, Triple-Guarantees, Triple-atomically, Triple-pure, Triple-bind, Triple-bind_lift,
  Guarantees-Triple,
}
use red_room_rewards.Action.Keeps.{
  Guarantees, Guarantees-pure, Guarantees-throw, Guarantees-lift, Guarantees-atomically,
  Guarantees-attempt, Guarantees-fresh_id, Guarantees-current_time, Guarantees-publish,
  Guarantees-bind,
}
use red_room_rewards.Service.{Service}
use red_room_rewards.Ledger.Entries.Laws.{create_entry-Guarantees}
use red_room_rewards.Ledger.Idempotency.Laws.{claim_idempotency-Guarantees}
use red_room_rewards.Wallet.Config.{Config}
use red_room_rewards.Wallet.Steps.{
  new_wallet, find_wallet, create_wallet, delete_escrow, or_create_wallet, get_or_create_wallet,
}
use red_room_rewards.Wallet.Hold.{
  held_item, record_hold, after_hold, execute_hold_in_escrow, retry_hold, hold_attempts,
  hold_in_escrow,
}
use red_room_rewards.Wallet.Guarantees.Steps.{HoldSteps}

module _ {M : Mongo} {Seen : String → Wallet → Db M → Type 0} {G : Db M → Db M → Type 0}
    (s : HoldSteps Seen G) (cfg : Config) where
  record_hold-Guarantees :
      (r : EscrowHoldRequest) (id : String) (w : Wallet) → Guarantees G (record_hold M cfg r id w)
  unfolding record_hold
  record_hold-Guarantees r id w =
      search
        (
          Guarantees-bind s.order,
          Guarantees-fresh_id s.order,
          Guarantees-current_time s.order,
          Guarantees-publish s.order,
          Guarantees-pure s.order,
          create_entry-Guarantees M s.order s.inserts,
        )
        depth 20

  after_hold-Guarantees :
      (r : EscrowHoldRequest) (id : String) (w : Wallet) (u : Option Wallet)
      → Guarantees G (after_hold M cfg r id w u)
  unfolding after_hold
  after_hold-Guarantees r id w none =
      Guarantees-bind s.order _ _
        (Guarantees-atomically s.order (delete_escrow M id) (s.deletes_escrow id))
        (λ _. Guarantees-throw s.order _)
  after_hold-Guarantees r id w (some u) = record_hold-Guarantees r id w

  created-found :
      (x : Wallet) (d : Db M) (a : Wallet)
      → (create_wallet M x d).0 ≡ ok a
      → M.wallets.get x.user_id (create_wallet M x d).1.wallets ≡ some a
  unfolding create_wallet
  created-found x d a h = ground (arith, M.wallets.get-put_self x.user_id x d.wallets)

  found-Seen :
      (currency id : String) (found : Option Wallet)
      → Triple G
          (λ d. (w : Wallet) → found ≡ some w → Seen id w d)
          (or_create_wallet M currency id found)
          (Seen id)
  unfolding or_create_wallet
  found-Seen currency id none =
      Triple-atomically s.order (create_wallet M (new_wallet id currency)) (λ d d' g p w e. cc)
        (λ d _. s.creates id currency d)
        (λ d a _ h. s.seen_found id a _ (created-found (new_wallet id currency) d a h))
  found-Seen currency id (some w) = Triple-pure s.order w (λ d seen. seen w refl)

  -- The wallet that a hold goes on with has been read.
  get_or_create_wallet-Seen :
      (currency id : String)
      → Triple G (λ d. Unit {0}) (get_or_create_wallet M currency id) (Seen id)
  unfolding get_or_create_wallet find_wallet
  get_or_create_wallet-Seen currency id =
      Triple-bind s.order _ _
        (Triple-atomically s.order (find_wallet M id) (λ _ _ _ _. tt) (λ d _. s.order.rel_refl d)
          (λ d found _ h w e. s.seen_found id w d (cc)))
        (found-Seen currency id)

  execute-Guarantees : (r : EscrowHoldRequest) → Guarantees G (execute_hold_in_escrow M cfg r)
  unfolding execute_hold_in_escrow
  execute-Guarantees r =
      Guarantees-Triple _ (λ _. tt)
        (Triple-bind s.order _ _ (get_or_create_wallet-Seen cfg.default_currency r.user_id) λ w.
          let stable = s.seen_stable r.user_id w in
          Triple-bind_lift s.order _ _ λ _ passed.
            Triple-bind s.order _ _ (Triple-Guarantees _ stable (Guarantees-fresh_id s.order)) λ id.
              Triple-bind s.order _ _ (Triple-Guarantees _ stable (Guarantees-current_time s.order))
                λ now.
                  Triple-bind s.order _ _
                    (Triple-Guarantees _ stable
                      (Guarantees-atomically s.order _ (s.creates_escrow (held_item r id now))))
                    λ _.
                      Triple-bind s.order _ _
                        (Triple-atomically s.order _ {Q = λ _ _. Unit {0}} stable
                          (λ d seen. s.holds r.user_id r.amount w d passed seen) (λ _ _ _ _. tt))
                        λ u. Triple-Guarantees _ (λ _ _ _ _. tt) (after_hold-Guarantees r id w u))

  retry_hold-Guarantees :
      (left : ℕ) (again : Service M EscrowHoldResponse) (x : Result EscrowHoldResponse)
      → Guarantees G again
      → Guarantees G (retry_hold M cfg left again x)
  unfolding retry_hold
  retry_hold-Guarantees left again (ok a) k = Guarantees-pure s.order a
  retry_hold-Guarantees zero again (err x) k = Guarantees-throw s.order x
  retry_hold-Guarantees (suc left) again (err (optimistic_lock kind id)) k = k
  retry_hold-Guarantees (suc left) again (err x) k = Guarantees-throw s.order x

  hold_attempts-Guarantees :
      (left : ℕ) (r : EscrowHoldRequest) → Guarantees G (hold_attempts M cfg left r)
  unfolding hold_attempts
  hold_attempts-Guarantees zero r = Guarantees-throw s.order _
  hold_attempts-Guarantees (suc left) r =
      Guarantees-bind s.order _ _ (Guarantees-attempt s.order _ (execute-Guarantees r))
        λ x. retry_hold-Guarantees left _ x (hold_attempts-Guarantees left r)

  pub hold-Guarantees : (r : EscrowHoldRequest) → Guarantees G (hold_in_escrow M cfg r)
  unfolding hold_in_escrow
  hold-Guarantees r =
      search
        (
          Guarantees-bind s.order,
          Guarantees-lift s.order,
          claim_idempotency-Guarantees M s.order s.records,
          hold_attempts-Guarantees,
        )
        depth 20
