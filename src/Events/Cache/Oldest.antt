-- ===== src/Events/Cache/Oldest.antt =====
-- `evictIfNeeded` of events/balance-snapshot-cache.ts takes the oldest entries.
use mathlib.Core.Path.{subst}
use red_room_rewards.Prelude.{
  ℕ, ◌-◌, ◌≤◌, leb, ◌≤ℤ◌, String, str_eq, str_eq_iff, Bool, true, false, ◌≡◌, ◌≢◌, ◌∙◌, refl, sym,
  List, [], ◌∷◌, ◌++◌, none, some, some-injective, All, length, take, drop, keep_if, sort_by-All,
  All-sort_by, sort_by-IsSorted, IsSorted, Bool-cases, inl, inr, arith,
}
use red_room_rewards.Store.Table.{get, by_text}
use red_room_rewards.Events.Cache.{
  CachedBalance, BalanceCacheConfig, Cache, age_of, oldest_first, evict_if_needed,
}
use red_room_rewards.Events.Cache.Eviction.{
  Entry, spared, none_spared, take-append-drop, delete_each-keep_if,
}

-- No key stands twice.
abbrev pub Distinct : Cache → Type 0
Distinct [] = Unit
Distinct ((k, c) ∷ t) = (get by_text k t ≡ none) × Distinct t

-- Each entry is the one that is found under its key.
found_later :
    (k : String) (c : CachedBalance) (u t : Cache)
    → get by_text k t ≡ none
    → All (λ q. get by_text q.0 t ≡ some q.1) u
    → All (λ q. get by_text q.0 ((k, c) ∷ t) ≡ some q.1) u
found_later k c [] t new h = tt
found_later k c (q ∷ u) t new (h, hs) =
    (ground (arith, str_eq_iff q.0 k), found_later k c u t new hs)

each_found : (t : Cache) → Distinct t → All (λ q. get by_text q.0 t ≡ some q.1) t
each_found [] d = tt
each_found ((k, c) ∷ t) (new, d) =
    (ground (arith, str_eq_iff k k), found_later k c t t new (each_found t d))

-- The entry of a spared list that has the key.
taken_entry :
    (P : Entry → Type 0) (qs : List Entry) (x : Entry)
    → spared qs x ≡ false
    → All P qs
    → (q : Entry) × P q × (q.0 ≡ x.0)
taken_entry P [] x h ps = absurd (cc)
taken_entry P (q ∷ qs) x h (pq, ps) = elim (Bool-cases (str_eq q.0 x.0)) [
  | inl same ↦ (q, pq, (str_eq_iff q.0 x.0).0 same)
  | inr other ↦ taken_entry P qs x (rw other at h) ps
]

pub All-append_back :
    (P : Entry → Type 0) (xs ys : List Entry) → All P (xs ++ ys) → All P xs × All P ys
All-append_back P [] ys h = (tt, h)
All-append_back P (x ∷ xs) ys (h, hs) =
    let (front, back) = All-append_back P xs ys hs in ((h, front), back)

All-append : (P : Entry → Type 0) (xs ys : List Entry) → All P xs → All P ys → All P (xs ++ ys)
All-append P [] ys hx hy = hy
All-append P (x ∷ xs) ys (h, hx) hy = (h, All-append P xs ys hx hy)

-- In a sorted list each of the first entries is at most as young as each of the rest.
first_oldest :
    (xs ys : List Entry)
    → IsSorted age_of (xs ++ ys)
    → All (λ q. All (λ r. age_of q ≤ℤ age_of r) ys) xs
first_oldest [] ys s = tt
first_oldest (x ∷ xs) ys (below, s) = ((All-append_back _ xs ys below).1, first_oldest xs ys s)

get-All :
    (P : Entry → Type 0) (k : String) (c : CachedBalance) (t : Cache)
    → All P t
    → get by_text k t ≡ some c
    → P (k, c)
get-All P k c [] h found = absurd (cc)
get-All P k c ((j, d) ∷ t) (h, hs) found = elim (Bool-cases (str_eq k j)) [
  | inl same ↦
      let is = (str_eq_iff k j).0 same in
      let value : d ≡ c = some-injective d c (rw same at found) in rw is (rw (← value) h)
  | inr other ↦ get-All P k c t hs (rw other at found)
]

keep_if-All :
    (P : Entry → Type 0) (p : Entry → Bool) (t : Cache)
    → All (λ x. p x ≡ true → P x) t
    → All P (keep_if p t)
keep_if-All P p [] h = tt
keep_if-All P p (x ∷ t) (h, hs) = elim (Bool-cases (p x)) [
  | inl kept ↦ rw kept (h kept, keep_if-All P p t hs)
  | inr gone ↦ rw gone (keep_if-All P p t hs)
]

keep_if-get :
    (p : Entry → Bool) (k : String) (c : CachedBalance) (t : Cache)
    → get by_text k t ≡ some c
    → p (k, c) ≡ true
    → get by_text k (keep_if p t) ≡ some c
keep_if-get p k c [] found kept = absurd (cc)
keep_if-get p k c ((j, d) ∷ t) found kept = elim (Bool-cases (str_eq k j)) [
  | inl same ↦
      let is = (str_eq_iff k j).0 same in
      let value : d ≡ c = some-injective d c (rw same at found) in
      let stays : p (j, d) ≡ true = rw (← is) (rw value kept) in rw stays (rw same (rw value refl))
  | inr other ↦
      let rest = keep_if-get p k c t (rw other at found) kept in
      elim (Bool-cases (p (j, d))) [
        | inl stays ↦ rw stays (rw other rest)
        | inr goes ↦ rw goes rest
      ]
]

both : (P Q : Entry → Type 0) (xs : List Entry) → All P xs → All Q xs → All (λ x. P x × Q x) xs
both P Q [] ps qs = tt
both P Q (x ∷ xs) (p, ps) (q, qs) = ((p, q), both P Q xs ps qs)

All-map :
    (P Q : Entry → Type 0) (f : (x : Entry) → P x → Q x) (xs : List Entry) → All P xs → All Q xs
All-map P Q f [] h = tt
All-map P Q f (x ∷ xs) (h, hs) = (f x h, All-map P Q f xs hs)

module _ (t : Cache) (n : ℕ) (k : String) (c : CachedBalance) (distinct : Distinct t)
    (was : get by_text k t ≡ some c) where
  abbrev taken : List Entry
  taken = take n (oldest_first t)

  abbrev left : List Entry
  left = drop n (oldest_first t)

  -- If the entry is among the first, the rest are at least as young.
  younger_left : spared taken (k, c) ≡ false → All (λ r. c.last_updated ≤ r.1.last_updated) left
  younger_left gone =
      let parts = take-append-drop n (oldest_first t) in
      let sorted : IsSorted age_of (taken ++ left) = rw parts (sort_by-IsSorted age_of t) in
      let found : All (λ q. get by_text q.0 t ≡ some q.1) (taken ++ left) =
        rw parts
          (sort_by-All age_of (λ q. get by_text q.0 t ≡ some q.1) t (each_found t distinct)) in
      let facts =
        both (λ q. All (λ r. age_of q ≤ℤ age_of r) left) (λ q. get by_text q.0 t ≡ some q.1) taken
          (first_oldest taken left sorted)
          (All-append_back (λ q. get by_text q.0 t ≡ some q.1) taken left found).0 in
      let (q, (older, q_found), same) =
        taken_entry (λ q. All (λ r. age_of q ≤ℤ age_of r) left × (get by_text q.0 t ≡ some q.1))
          taken (k, c) gone facts in
      let value : q.1 ≡ c = some-injective q.1 c (cc) in
      All-map (λ r. age_of q ≤ℤ age_of r) (λ r. c.last_updated ≤ r.1.last_updated)
        (λ r h. rw (← value) (omega arith)) left older

  -- What is kept is among the rest.
  younger_kept :
      spared taken (k, c) ≡ false
      → All (λ r. c.last_updated ≤ r.1.last_updated) (keep_if (spared taken) t)
  younger_kept gone =
      let P : Entry → Type 0 = λ r. spared taken r ≡ true → c.last_updated ≤ r.1.last_updated in
      keep_if-All (λ r. c.last_updated ≤ r.1.last_updated) (spared taken) t
        (All-sort_by age_of P t (
          subst (All P) (take-append-drop n (oldest_first t)) (
            All-append P taken left
              (All-map (λ r. spared taken r ≡ false) P (λ r h kept. absurd (cc)) taken
                (none_spared taken))
              (All-map (λ r. c.last_updated ≤ r.1.last_updated) P (λ r h kept. h) left
                (younger_left gone)))))

not-none : {A : Type 0} → (a : A) → none ≢ some a
not-none a h = cc

-- Whatever an eviction takes was last updated no later than whatever it keeps.
pub evict-oldest :
    (cfg : BalanceCacheConfig) (t : Cache) (k j : String) (c d : CachedBalance)
    → Distinct t
    → get by_text k t ≡ some c
    → get by_text k (evict_if_needed cfg t) ≡ none
    → get by_text j (evict_if_needed cfg t) ≡ some d
    → c.last_updated ≤ d.last_updated
unfolding evict_if_needed
evict-oldest cfg t k j c d distinct was gone stays =
    elim (Bool-cases (leb (length t) cfg.max_size)) [
      | inl fits ↦ absurd (let still : get by_text k t ≡ none = rw fits at gone in cc)
      | inr full ↦
          let n = length t - cfg.max_size in
          let qs = take n (oldest_first t) in
          let run = delete_each-keep_if qs t in
          let gone' : get by_text k (keep_if (spared qs) t) ≡ none = rw run at (rw full at gone) in
          let stays' : get by_text j (keep_if (spared qs) t) ≡ some d =
            rw run at (rw full at stays) in
          elim (Bool-cases (spared qs (k, c))) [
            | inl kept ↦ absurd (not-none c (sym gone' ∙ keep_if-get (spared qs) k c t was kept))
            | inr lost ↦
                get-All (λ r. c.last_updated ≤ r.1.last_updated) j d (keep_if (spared qs) t)
                  (younger_kept t n k c distinct was lost) stays'
          ]
    ]
