-- ===== src/Events/Cache/Eviction.antt =====
-- `evictIfNeeded` of events/balance-snapshot-cache.ts: the size that it leaves, and what it takes.
use red_room_rewards.Prelude.{
  ℕ, zero, suc, ◌-◌, ◌≤◌, leb, leb→le, String, str_eq, str_eq_iff, Bool, true, false, not, ◌&&◌,
  ◌≡◌, ◌∙◌, refl, sym, ap, sort_by-length, List, [], ◌∷◌, ◌++◌, All, length, take, drop, keep_if,
  sort_by-count, Bool-cases, inl, inr, arith,
}
use red_room_rewards.Store.Table.{remove, by_text}
use red_room_rewards.Events.Cache.{
  CachedBalance, BalanceCacheConfig, Cache, age_of, oldest_first, delete_each, evict_if_needed,
}

abbrev pub Entry : Type 0
Entry = String × CachedBalance

-- The key is not that of an entry in the list.
abbrev pub spared : List Entry → Entry → Bool
spared [] p = true
spared (q ∷ qs) p = not (str_eq q.0 p.0) && spared qs p

keep_if_twice :
    (p q : Entry → Bool) (t : Cache) → keep_if p (keep_if q t) ≡ keep_if (λ x. q x && p x) t
keep_if_twice p q [] = refl
keep_if_twice p q (x ∷ t) = ground (arith, keep_if_twice p q t)

remove-keep_if : (k : String) (t : Cache) → remove by_text k t ≡ keep_if (λ x. not (str_eq k x.0)) t
remove-keep_if k [] = refl
remove-keep_if k (x ∷ t) = ground (arith, remove-keep_if k t)

keep_if_all : (t : Cache) → keep_if (spared []) t ≡ t
keep_if_all [] = refl
keep_if_all (x ∷ t) = rw (keep_if_all t) refl

pub delete_each-keep_if : (qs : List Entry) (t : Cache) → delete_each qs t ≡ keep_if (spared qs) t
unfolding delete_each
delete_each-keep_if [] t = sym (keep_if_all t)
delete_each-keep_if (q ∷ qs) t =
    delete_each-keep_if qs (remove by_text q.0 t)
    ∙ rw (remove-keep_if q.0 t) (keep_if_twice (spared qs) (λ x. not (str_eq q.0 x.0)) t)

-- A list spares none of its own entries.
spared-cons :
    (q : Entry) (qs xs : List Entry)
    → All (λ x. spared qs x ≡ false) xs
    → All (λ x. spared (q ∷ qs) x ≡ false) xs
spared-cons q qs [] h = tt
spared-cons q qs (x ∷ xs) (h, hs) = (ground arith, spared-cons q qs xs hs)

pub none_spared : (qs : List Entry) → All (λ x. spared qs x ≡ false) qs
none_spared [] = tt
none_spared (q ∷ qs) = (rw ((str_eq_iff q.0 q.0).1 refl) refl, spared-cons q qs qs (none_spared qs))

keep_if-none : (p : Entry → Bool) (xs : List Entry) → All (λ x. p x ≡ false) xs → keep_if p xs ≡ []
keep_if-none p [] h = refl
keep_if-none p (x ∷ xs) (h, hs) = rw h (keep_if-none p xs hs)

keep_if-append :
    (p : Entry → Bool) (xs ys : List Entry) → keep_if p (xs ++ ys) ≡ keep_if p xs ++ keep_if p ys
keep_if-append p [] ys = refl
keep_if-append p (x ∷ xs) ys = ground (arith, keep_if-append p xs ys)

length-keep_if-le : (p : Entry → Bool) (xs : List Entry) → length (keep_if p xs) ≤ length xs
length-keep_if-le p [] = omega arith
length-keep_if-le p (x ∷ xs) = ground (arith, length-keep_if-le p xs)

pub take-append-drop : (n : ℕ) (xs : List Entry) → take n xs ++ drop n xs ≡ xs
take-append-drop zero xs = refl
take-append-drop (suc n) [] = refl
take-append-drop (suc n) (x ∷ xs) = rw (take-append-drop n xs) refl

length-drop : (n : ℕ) (xs : List Entry) → length (drop n xs) ≡ length xs - n
length-drop zero xs = omega arith
length-drop (suc n) [] = omega arith
length-drop (suc n) (x ∷ xs) = omega (arith, length-drop n xs)

-- What is left of a sorted list when its first `n` entries are deleted by their keys.
kept_of_sorted :
    (n : ℕ) (xs : List Entry)
    → keep_if (spared (take n xs)) xs ≡ keep_if (spared (take n xs)) (drop n xs)
kept_of_sorted n xs =
    let p = spared (take n xs) in
    sym (ap (keep_if p) (take-append-drop n xs))
    ∙ keep_if-append p (take n xs) (drop n xs)
    ∙ ap (λ l. l ++ keep_if p (drop n xs)) (keep_if-none p (take n xs) (none_spared (take n xs)))

deleted-le : (n : ℕ) (t : Cache) → length (delete_each (take n (oldest_first t)) t) ≤ length t - n
deleted-le n t =
    let s = oldest_first t in
    let p = spared (take n s) in
    omega (
      arith,
      ap length (delete_each-keep_if (take n s) t),
      sort_by-count age_of p t,
      ap length (kept_of_sorted n s),
      length-keep_if-le p (drop n s),
      length-drop n s,
      sort_by-length age_of t,
    )

-- After an eviction the cache has at most its maximal size.
pub evict-le_max :
    (cfg : BalanceCacheConfig) (t : Cache) → length (evict_if_needed cfg t) ≤ cfg.max_size
unfolding evict_if_needed
evict-le_max cfg t = elim (Bool-cases (leb (length t) cfg.max_size)) [
  | inl fits ↦ rw fits (leb→le _ _ fits)
  | inr full ↦ rw full (
      let over : cfg.max_size ≤ length t = ground arith in
      omega (arith, deleted-le (length t - cfg.max_size) t))
]

-- A cache that fits is left as it is.
pub evict_fitting :
    (cfg : BalanceCacheConfig) (t : Cache) → length t ≤ cfg.max_size → evict_if_needed cfg t ≡ t
unfolding evict_if_needed
evict_fitting cfg t fits = ground arith
