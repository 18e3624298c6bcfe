-- ===== src/Action/Triples.antt =====
-- Triples under interference: from a database where `P` holds, an action moves along `G`, and where
-- it returns `a` it leaves a database with `Q a`. The preconditions are those that no step along `G`
-- breaks, such as what has once been read.
use mathlib.Core.Path.{subst}
use red_room_rewards.Prelude.{◌≡◌, refl}
use red_room_rewards.Action.{
  Env, World, Result, ok, err, Action, Respects, pure, lift, atomically, continue, ◌>>=◌,
}
use red_room_rewards.Action.Keeps.{Preorder, Guarantees}

pub record Triple {Db Event A : Type 0} (G : Db → Db → Type 0) (P : Db → Type 0)
    (m : Action Db Event A) (Q : A → Db → Type 0) : Type 0 where
  pub at :
      (e : Env Db) (w : World Db Event)
      → Respects G e
      → P w.db
      → G w.db (m e w).1.db × ((a : A) → (m e w).0 ≡ ok a → Q a (m e w).1.db)

-- No step along `G` breaks `P`.
abbrev pub Stable : {Db : Type 0} (G : Db → Db → Type 0) (P : Db → Type 0) → Type 0
Stable {Db} G P = (d d' : Db) → G d d' → P d → P d'

module _ {Db Event A : Type 0} {G : Db → Db → Type 0} {P : Db → Type 0} where
  -- A guarantee leaves a stable condition as it is.
  pub Triple-Guarantees :
      (m : Action Db Event A) → Stable G P → Guarantees G m → Triple G P m (λ a d. P d)
  Triple-Guarantees m stable g = record {
    at = λ e w r p. let moved = g.at e w r in (moved, λ a h. stable _ _ moved p);
  }

  pub Triple-atomically :
      (o : Preorder G) (op : Db → Result A × Db) {Q : A → Db → Type 0}
      → Stable G P
      → ((d : Db) → P d → G d (op d).1)
      → ((d : Db) (a : A) → P d → (op d).0 ≡ ok a → Q a (op d).1)
      → Triple {Event = Event} G P (atomically op) Q
  unfolding atomically
  Triple-atomically o op stable g q = record {
    at = λ e w r p.
        let moved = r.step w.clock w.db in
        let here = stable _ _ moved p in (o.rel_trans moved (g _ here), λ a h. q _ a here h);
  }

  pub Triple-pure :
      (o : Preorder G) (a : A) {Q : A → Db → Type 0}
      → ((d : Db) → P d → Q a d)
      → Triple {Event = Event} G P (pure a) Q
  Triple-pure o a {Q} q = record {
    at = λ e w r p.
        (o.rel_refl w.db, λ b h. let same : a ≡ b = cc in subst (λ x. Q x w.db) same (q w.db p));
  }

  -- What the action returns need not be known.
  pub Guarantees-Triple :
      (m : Action Db Event A) {Q : A → Db → Type 0}
      → ((d : Db) → P d)
      → Triple G P m Q
      → Guarantees G m
  Guarantees-Triple m everywhere t = record { at = λ e w r. (t.at e w r (everywhere w.db)).0 }

module _ {Db Event A B : Type 0} {G : Db → Db → Type 0} where
  Triple-continue :
      (o : Preorder G) (x : Result A) (f : A → Action Db Event B) {Q : A → Db → Type 0}
      {R : B → Db → Type 0}
      → ((a : A) → Triple G (Q a) (f a) R)
      → (e : Env Db) (w : World Db Event) → Respects G e
      → ((a : A) → x ≡ ok a → Q a w.db)
      → G w.db (continue x f e w).1.db
        × ((b : B) → (continue x f e w).0 ≡ ok b → R b (continue x f e w).1.db)
  Triple-continue o (ok a) f k e w r q = (k a).at e w r (q a refl)
  Triple-continue o (err x) f k e w r q = (o.rel_refl w.db, λ b h. cc)

module _ {Db Event A B : Type 0} {G : Db → Db → Type 0} {P : Db → Type 0} where
  pub Triple-bind :
      (o : Preorder G) (m : Action Db Event A) (f : A → Action Db Event B) {Q : A → Db → Type 0}
      {R : B → Db → Type 0}
      → Triple G P m Q
      → ((a : A) → Triple G (Q a) (f a) R)
      → Triple G P (m >>= f) R
  unfolding ◌>>=◌
  Triple-bind o m f {Q} {R} t k = record {
    at = λ e w r p.
        let (x, w') = m e w in
        let first = t.at e w r p in
        let rest = Triple-continue o x f {Q = Q} {R = R} k e w' r first.1 in
        (o.rel_trans first.0 rest.0, rest.1);
  }

  pub Triple-bind_lift :
      (o : Preorder G) (x : Result A) (f : A → Action Db Event B) {R : B → Db → Type 0}
      → ((a : A) → x ≡ ok a → Triple G P (f a) R)
      → Triple G P (lift x >>= f) R
  unfolding ◌>>=◌
  Triple-bind_lift o (ok a) f k = k a refl
  Triple-bind_lift o (err y) f k = record { at = λ e w r p. (o.rel_refl w.db, λ b h. cc) }
