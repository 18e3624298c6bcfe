-- ===== src/Store/Interface.antt =====
-- What the services rely on of a MongoDB collection whose documents have a unique key: a document
-- is found by its key, a write of a key touches no other key, a search returns the documents that
-- pass its filter, an update of many changes those that
-- pass its filter, and a document that is replaced no longer counts in a sum.
use red_room_rewards.Prelude.{
  ℤ, pos, ◌+ℤ◌, ◌≡◌, ◌∙◌, ◌≢◌, Bool, true, List, Option, none, some, total, keep_if, if◌then◌else◌,
}

abbrev pub everything : {D : Type 0} → D → Bool
everything d = true

-- What a document adds to a sum, if there is one.
abbrev pub measure : {D : Type 0} → (D → ℤ) → Option D → ℤ
measure f none = pos 0
measure f (some d) = f d

pub record DocStore (K D : Type 0) : Type 1 where
  pub Docs : Type 0
  -- `findOne({ key: { $eq } })`
  pub get : K → Docs → Option D
  -- the document that a `create` or an update leaves under the key
  pub put : K → D → Docs → Docs
  -- `deleteOne({ key: { $eq } })`
  pub remove : K → Docs → Docs
  -- `find(filter)`
  pub find : (D → Bool) → Docs → List D
  -- `updateMany(filter, …)`
  pub update_all : (D → Bool) → (D → D) → Docs → Docs
  pub get-put_self : (k : K) (d : D) (c : Docs) → get k (put k d c) ≡ some d
  pub get-put_ne : (j k : K) (d : D) (c : Docs) → j ≢ k → get j (put k d c) ≡ get j c
  pub get-remove_self : (k : K) (c : Docs) → get k (remove k c) ≡ none
  pub get-remove_ne : (j k : K) (c : Docs) → j ≢ k → get j (remove k c) ≡ get j c
  pub get-update_all :
      (p : D → Bool) (f : D → D) (k : K) (d : D) (c : Docs)
      → get k c ≡ some d
      → get k (update_all p f c) ≡ some (if p d then f d else d)
  pub find-everything : (p : D → Bool) (c : Docs) → find p c ≡ keep_if p (find everything c)
  pub total-put :
      (f : D → ℤ) (k : K) (d : D) (c : Docs)
      → total f (find everything (put k d c)) +ℤ measure f (get k c)
        ≡ total f (find everything c) +ℤ f d

module _ {K D : Type 0} (S : DocStore K D) where
  -- What is written under a new key hides no document.
  pub get-put_new :
      (j k : K) (d x : D) (c : S.Docs)
      → S.get k c ≡ none
      → S.get j c ≡ some x
      → S.get j (S.put k d c) ≡ some x
  get-put_new j k d x c new old = S.get-put_ne j k d c (λ same. cc) ∙ old
