-- ===== src/Prelude/Sorting.antt =====
-- `Array.prototype.sort` by a numeric key: stable, so elements of one key keep their order.
use Prim.Native.Nat.{suc, ◌+◌}
use mathlib.Core.Path.{◌≡◌, refl}
use mathlib.Core.Bool.{Bool}
use mathlib.Core.Logic.{inl, inr}
use mathlib.Core.List.{List, [], ◌∷◌}
use native.Mathlib.Omega.{arith}
use red_room_rewards.Prelude.Tests.{if◌then◌else◌, Bool-cases, leb→le}
use red_room_rewards.Prelude.Int.{ℤ, leb_ℤ, ◌≤ℤ◌}
use red_room_rewards.Prelude.Lists.{All, length, keep_if}

module _ {A : Type 0} (key : A → ℤ) where
  -- Behind the elements whose key is at most its own.
  unfoldable pub insert_by : A → List A → List A
  insert_by x [] = x ∷ []
  insert_by x (y ∷ ys) =
      let rest = insert_by x ys in if leb_ℤ (key y) (key x) then y ∷ rest else x ∷ y ∷ ys

  unfoldable pub sort_onto : List A → List A → List A
  sort_onto sorted [] = sorted
  sort_onto sorted (x ∷ xs) = sort_onto (insert_by x sorted) xs

  unfoldable pub sort_by : List A → List A
  sort_by xs = sort_onto [] xs

  -- No later element has a smaller key.
  abbrev pub IsSorted : List A → Type 0
  IsSorted [] = Unit
  IsSorted (x ∷ xs) = All (λ y. key x ≤ℤ key y) xs × IsSorted xs

  insert_by-All : (P : A → Type 0) (x : A) (ys : List A) → P x → All P ys → All P (insert_by x ys)
  unfolding insert_by
  insert_by-All P x [] px ps = (px, tt)
  insert_by-All P x (y ∷ ys) px (py, ps) = elim (Bool-cases (leb_ℤ (key y) (key x))) [
    | inl before ↦ rw before (py, insert_by-All P x ys px ps)
    | inr behind ↦ rw behind (px, (py, ps))
  ]

  above : (a b : ℤ) (xs : List A) → a ≤ℤ b → All (λ y. b ≤ℤ key y) xs → All (λ y. a ≤ℤ key y) xs
  above a b [] h hs = tt
  above a b (x ∷ xs) h (hx, hs) = (omega arith, above a b xs h hs)

  insert_by-IsSorted : (x : A) (ys : List A) → IsSorted ys → IsSorted (insert_by x ys)
  unfolding insert_by
  insert_by-IsSorted x [] s = (tt, tt)
  insert_by-IsSorted x (y ∷ ys) (below, s) = elim (Bool-cases (leb_ℤ (key y) (key x))) [
    | inl before ↦
        rw before (insert_by-All _ x ys (leb→le _ _ before) below, insert_by-IsSorted x ys s)
    | inr behind ↦
        let under : key x ≤ℤ key y = ground arith in
        rw behind ((under, above (key x) (key y) ys under below), (below, s))
  ]

  sort_onto-IsSorted : (sorted xs : List A) → IsSorted sorted → IsSorted (sort_onto sorted xs)
  unfolding sort_onto
  sort_onto-IsSorted sorted [] s = s
  sort_onto-IsSorted sorted (x ∷ xs) s =
      sort_onto-IsSorted (insert_by x sorted) xs (insert_by-IsSorted x sorted s)

  pub sort_by-IsSorted : (xs : List A) → IsSorted (sort_by xs)
  unfolding sort_by
  sort_by-IsSorted xs = sort_onto-IsSorted [] xs tt

  sort_onto-All :
      (P : A → Type 0) (sorted xs : List A) → All P sorted → All P xs → All P (sort_onto sorted xs)
  unfolding sort_onto
  sort_onto-All P sorted [] hs h = hs
  sort_onto-All P sorted (x ∷ xs) hs (hx, h) =
      sort_onto-All P (insert_by x sorted) xs (insert_by-All P x sorted hx hs) h

  pub sort_by-All : (P : A → Type 0) (xs : List A) → All P xs → All P (sort_by xs)
  unfolding sort_by
  sort_by-All P xs h = sort_onto-All P [] xs tt h

  insert_by-All_back :
      (P : A → Type 0) (x : A) (ys : List A) → All P (insert_by x ys) → P x × All P ys
  unfolding insert_by
  insert_by-All_back P x [] (px, ps) = (px, tt)
  insert_by-All_back P x (y ∷ ys) h = elim (Bool-cases (leb_ℤ (key y) (key x))) [
    | inl before ↦
        let (py, rest) : P y × All P (insert_by x ys) = rw before at h in
        let (px, ps) = insert_by-All_back P x ys rest in (px, (py, ps))
    | inr behind ↦ let (px, ps) : P x × All P (y ∷ ys) = rw behind at h in (px, ps)
  ]

  sort_onto-All_back :
      (P : A → Type 0) (sorted xs : List A) → All P (sort_onto sorted xs) → All P sorted × All P xs
  unfolding sort_onto
  sort_onto-All_back P sorted [] h = (h, tt)
  sort_onto-All_back P sorted (x ∷ xs) h =
      let (front, back) = sort_onto-All_back P (insert_by x sorted) xs h in
      let (px, ps) = insert_by-All_back P x sorted front in (ps, (px, back))

  -- A sorted list has no elements but those of the list.
  pub All-sort_by : (P : A → Type 0) (xs : List A) → All P (sort_by xs) → All P xs
  unfolding sort_by
  All-sort_by P xs h = (sort_onto-All_back P [] xs h).1

  -- The number of elements that pass a test stays.
  insert_by-count :
      (p : A → Bool) (x : A) (ys : List A)
      → length (keep_if p (insert_by x ys)) ≡ length (keep_if p (x ∷ ys))
  unfolding insert_by
  insert_by-count p x [] = refl
  insert_by-count p x (y ∷ ys) = ground (arith, insert_by-count p x ys)

  sort_onto-count :
      (p : A → Bool) (sorted xs : List A)
      → length (keep_if p (sort_onto sorted xs)) ≡ length (keep_if p sorted) + length (keep_if p xs)
  unfolding sort_onto
  sort_onto-count p sorted [] = omega arith
  sort_onto-count p sorted (x ∷ xs) =
      ground (arith, sort_onto-count p (insert_by x sorted) xs, insert_by-count p x sorted)

  pub sort_by-count :
      (p : A → Bool) (xs : List A) → length (keep_if p (sort_by xs)) ≡ length (keep_if p xs)
  unfolding sort_by
  sort_by-count p xs = omega (arith, sort_onto-count p [] xs)

  insert_by-length : (x : A) (ys : List A) → length (insert_by x ys) ≡ suc (length ys)
  unfolding insert_by
  insert_by-length x [] = refl
  insert_by-length x (y ∷ ys) = ground (arith, insert_by-length x ys)

  sort_onto-length : (sorted xs : List A) → length (sort_onto sorted xs) ≡ length sorted + length xs
  unfolding sort_onto
  sort_onto-length sorted [] = omega arith
  sort_onto-length sorted (x ∷ xs) =
      omega (arith, sort_onto-length (insert_by x sorted) xs, insert_by-length x sorted)

  pub sort_by-length : (xs : List A) → length (sort_by xs) ≡ length xs
  unfolding sort_by
  sort_by-length xs = omega (arith, sort_onto-length [] xs)
