-- ===== src/Prelude/Members.antt =====
-- The members of a list, and what they share with those of a list in another order.
use mathlib.Core.Path.{◌≡◌, refl, sym, subst}
use mathlib.Core.Bool.{Bool, true}
use mathlib.Core.List.Permᴰ
use mathlib.Core.List.{List, [], ◌∷◌, Permᴰ, Memᴰ}
use red_room_rewards.Prelude.Lists.{All, keep_if}
use red_room_rewards.Prelude.Tests.{Bool-cases}
use mathlib.Core.Logic.{inl, inr}

module _ {A : Type 0} where
  pub All-Perm : (P : A → Type 0) {xs ys : List A} → Permᴰ xs ys → All P xs → All P ys
  All-Perm P Permᴰ.nil h = tt
  All-Perm P (Permᴰ.cons e p) (h, hs) = (subst P e h, All-Perm P p hs)
  All-Perm P (Permᴰ.swap e f) (h, (h', hs)) = (subst P f h', (subst P e h, hs))
  All-Perm P (Permᴰ.trans p q) h = All-Perm P q (All-Perm P p h)

  pub All-Perm_back : (P : A → Type 0) {xs ys : List A} → Permᴰ xs ys → All P ys → All P xs
  All-Perm_back P p h = All-Perm P (Permᴰ.symm p) h

  pub All-map : (P Q : A → Type 0) (xs : List A) → ((x : A) → P x → Q x) → All P xs → All Q xs
  All-map P Q [] f h = tt
  All-map P Q (x ∷ xs) f (h, hs) = (f x h, All-map P Q xs f hs)

  pub All-member : (P : A → Type 0) {x : A} {xs : List A} → Memᴰ x xs → All P xs → P x
  All-member P (Memᴰ.head e) (h, hs) = subst P (sym e) h
  All-member P (Memᴰ.tail m) (h, hs) = All-member P m hs

  pub all_members : (xs : List A) → All (λ x. Memᴰ x xs) xs
  all_members [] = tt
  all_members (x ∷ xs) = (Memᴰ.head refl, All-map _ _ xs (λ y m. Memᴰ.tail m) (all_members xs))

  pub keep_if-member :
      (p : A → Bool) {x : A} {xs : List A} → Memᴰ x xs → p x ≡ true → Memᴰ x (keep_if p xs)
  keep_if-member p {xs = []} m h = elim m [ ]
  keep_if-member p {xs = y ∷ ys} (Memᴰ.head e) h = rw (rw e at h) (Memᴰ.head e)
  keep_if-member p {xs = y ∷ ys} (Memᴰ.tail m) h = elim (Bool-cases (p y)) [
    | inl kept ↦ rw kept (Memᴰ.tail (keep_if-member p m h))
    | inr lost ↦ rw lost (keep_if-member p m h)
  ]

  pub keep_if-All :
      (P : A → Type 0) (p : A → Bool) (xs : List A)
      → All P xs
      → All (λ x. P x × (p x ≡ true)) (keep_if p xs)
  keep_if-All P p [] h = tt
  keep_if-All P p (x ∷ xs) (h, hs) = elim (Bool-cases (p x)) [
    | inl kept ↦ rw kept ((h, kept), keep_if-All P p xs hs)
    | inr lost ↦ rw lost (keep_if-All P p xs hs)
  ]
