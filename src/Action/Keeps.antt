-- ===== src/Action/Keeps.antt =====
-- Guarantees of actions under interference, one rule for each way to build an action: the relation
-- between the database before an action and the one after it, for a relation that is reflexive and
-- transitive and that the steps of the others respect.
use red_room_rewards.Prelude.{◌≡◌, refl, Bool, true, false, if◌then◌else◌}
use red_room_rewards.Domain.{Error}
use red_room_rewards.Action.{
  Env, World, Result, ok, err, Action, Respects, pure, throw, lift, atomically, continue, attempt,
  ◌>>=◌, fresh_id, current_time, publish,
}

pub record Preorder {Db : Type 0} (G : Db → Db → Type 0) : Type 0 where
  pub rel_refl : (d : Db) → G d d
  pub rel_trans : {c d e : Db} → G c d → G d e → G c e

-- `m` moves the database along `G`, whether it returns or throws.
pub record Guarantees {Db Event A : Type 0} (G : Db → Db → Type 0) (m : Action Db Event A)
    : Type 0 where
  pub at : (e : Env Db) (w : World Db Event) → Respects G e → G w.db (m e w).1.db

module _ {Db Event A : Type 0} {G : Db → Db → Type 0} (o : Preorder G) where
  pub Guarantees-pure : (a : A) → Guarantees {Event = Event} G (pure a)
  Guarantees-pure a = record { at = λ e w r. o.rel_refl w.db }

  pub Guarantees-throw : (x : Error) → Guarantees {Event = Event} {A = A} G (throw x)
  Guarantees-throw x = record { at = λ e w r. o.rel_refl w.db }

  pub Guarantees-lift : (x : Result A) → Guarantees {Event = Event} G (lift x)
  Guarantees-lift x = record { at = λ e w r. o.rel_refl w.db }

  pub Guarantees-atomically :
      (op : Db → Result A × Db)
      → ((d : Db) → G d (op d).1)
      → Guarantees {Event = Event} G (atomically op)
  unfolding atomically
  Guarantees-atomically op h = record {
    at = λ e w r. o.rel_trans (r.step w.clock w.db) (h (e.others w.clock w.db));
  }

  pub Guarantees-attempt : (m : Action Db Event A) → Guarantees G m → Guarantees G (attempt m)
  unfolding attempt
  Guarantees-attempt m k = record { at = λ e w r. k.at e w r }

  pub Guarantees-if :
      (b : Bool) (m n : Action Db Event A)
      → Guarantees G m
      → Guarantees G n
      → Guarantees G (if b then m else n)
  Guarantees-if true m n km kn = km
  Guarantees-if false m n km kn = kn

module _ {Db Event : Type 0} {G : Db → Db → Type 0} (o : Preorder G) where
  pub Guarantees-fresh_id : Guarantees {Event = Event} G fresh_id
  unfolding fresh_id
  Guarantees-fresh_id = record { at = λ e w r. o.rel_refl w.db }

  pub Guarantees-current_time : Guarantees {Event = Event} G current_time
  unfolding current_time
  Guarantees-current_time = record { at = λ e w r. o.rel_refl w.db }

  pub Guarantees-publish : (x : Event) → Guarantees G (publish x)
  unfolding publish
  Guarantees-publish x = record { at = λ e w r. o.rel_refl w.db }

module _ {Db Event A B : Type 0} {G : Db → Db → Type 0} (o : Preorder G) where
  Guarantees-continue :
      (x : Result A) (f : A → Action Db Event B)
      → ((a : A) → Guarantees G (f a))
      → Guarantees G (continue x f)
  Guarantees-continue (ok a) f k = k a
  Guarantees-continue (err x) f k = record { at = λ e w r. o.rel_refl w.db }

  pub Guarantees-bind :
      (m : Action Db Event A) (f : A → Action Db Event B)
      → Guarantees G m
      → ((a : A) → Guarantees G (f a))
      → Guarantees G (m >>= f)
  unfolding ◌>>=◌
  Guarantees-bind m f km kf = record {
    at = λ e w r.
        let (x, w') = m e w in o.rel_trans (km.at e w r) ((Guarantees-continue x f kf).at e w' r);
  }

  -- The rest of the block may use that a check has passed.
  pub Guarantees-bind_lift :
      (x : Result A) (f : A → Action Db Event B)
      → ((a : A) → x ≡ ok a → Guarantees G (f a))
      → Guarantees G (lift x >>= f)
  unfolding ◌>>=◌
  Guarantees-bind_lift (ok a) f k = k a refl
  Guarantees-bind_lift (err x) f k = record { at = λ e w r. o.rel_refl w.db }

module _ {Db Event A : Type 0} {G : Db → Db → Type 0} (o : Preorder G) where
  pub Guarantees-read :
      (f : Db → A) → Guarantees {Event = Event} G (atomically (λ d. (ok (f d), d)))
  Guarantees-read f = Guarantees-atomically o _ o.rel_refl

  -- A call whose result and error are dropped.
  pub Guarantees-swallow :
      (m : Action Db Event A) → Guarantees G m → Guarantees G (attempt m >>= λ _. pure tt)
  Guarantees-swallow m k =
      Guarantees-bind o _ _ (Guarantees-attempt o m k) (λ _. Guarantees-pure o tt)
