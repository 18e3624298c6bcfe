-- ===== src/Action.antt =====
-- An asynchronous method: a computation over a shared database that may throw. What was written
-- before a throw stays written. Every database call is one atomic step, and before each step the
-- other requests of the process and of other processes may change the database: they are the
-- environment's `others`. Identifiers (uuid's v4), the clock and the success of a publication come
-- from the environment too, indexed by the number of steps made so far.
pub mod Keeps
pub mod Triples
use red_room_rewards.Prelude.{ℕ, suc, String, Bool, List, ◌∷◌, ◌++◌, [], if◌then◌else◌}
use red_room_rewards.Domain.{Error}

pub record Env (Db : Type 0) : Type 0 where
  pub others : ℕ → Db → Db
  pub uuid : ℕ → String
  pub now : ℕ → ℕ
  pub delivers : ℕ → Bool

pub record World (Db Event : Type 0) : Type 0 where
  pub clock : ℕ
  pub db : Db
  pub published : List Event
  pub publish_errors : ℕ

pub data Result (A : Type 0) : Type 0 where
  ok : A → Result A
  err : Error → Result A

abbrev pub Action : Type 0 → Type 0 → Type 0 → Type 0
Action Db Event A = Env Db → World Db Event → Result A × World Db Event

module _ {Db Event : Type 0} where
  module _ {A : Type 0} where
    abbrev pub pure : A → Action Db Event A
    pure a e w = (ok a, w)

    abbrev pub throw : Error → Action Db Event A
    throw x e w = (err x, w)

    abbrev pub lift : Result A → Action Db Event A
    lift r e w = (r, w)

    -- One call of the database.
    unfoldable pub atomically : (Db → Result A × Db) → Action Db Event A
    atomically op e w =
        let d = e.others w.clock w.db in ((op d).0, record w { clock = suc w.clock; db = (op d).1 })

    -- One call whose outcome depends on its number.
    abbrev pub atomically_at : (ℕ → Db → Result A × Db) → Action Db Event A
    atomically_at op e w = atomically (op w.clock) e w

    abbrev pub continue : {B : Type 0} → Result A → (A → Action Db Event B) → Action Db Event B
    continue (ok a) f e w = f a e w
    continue (err x) f e w = (err x, w)

    -- The result of a call under `try`, for its `catch` to look at.
    unfoldable pub attempt : Action Db Event A → Action Db Event (Result A)
    attempt m e w = let (r, w') = m e w in (ok r, w')

  -- `uuidv4()`
  unfoldable pub fresh_id : Action Db Event String
  fresh_id e w = (ok (e.uuid w.clock), record w { clock = suc w.clock })

  -- `new Date()`, in milliseconds
  unfoldable pub current_time : Action Db Event ℕ
  current_time e w = (ok (e.now w.clock), record w { clock = suc w.clock })

  -- A publication in `try`, whose `catch` only counts the failure.
  unfoldable pub publish : Event → Action Db Event (Unit {0})
  publish x e w = (
    ok tt,
    record w {
      clock = suc w.clock;
      published = if e.delivers w.clock then w.published ++ x ∷ [] else w.published;
      publish_errors = if e.delivers w.clock then w.publish_errors else suc w.publish_errors;
    },
  )

  -- Opening this opens the actions above too.
  infixl 10 ◌>>=◌ ◌>>◌
  unfoldable pub ◌>>=◌ :
      {A B : Type 0} → Action Db Event A → (A → Action Db Event B) → Action Db Event B
  unfolding atomically attempt fresh_id current_time publish
  ◌>>=◌ m f e w = let (r, w') = m e w in continue r f e w'

  abbrev pub ◌>>◌ : {A B : Type 0} → Action Db Event A → Action Db Event B → Action Db Event B
  m >> n = m >>= λ _. n

-- The environment in which nothing else touches the database.
abbrev pub alone : {Db : Type 0} → Env Db → Env Db
alone e = record e { others = λ _ d. d }

-- The environment keeps a relation at each of its steps.
pub record Respects {Db : Type 0} (G : Db → Db → Type 0) (e : Env Db) : Type 0 where
  pub step : (n : ℕ) (d : Db) → G d (e.others n d)
