-- ===== src/Store/Table.antt =====
-- A store that satisfies `DocStore`: an association list, used to run the model at concrete inputs.
use red_room_rewards.Prelude.{
  ℤ, ◌+ℤ◌, ◌≡◌, ◌≢◌, refl, ◌↔◌, Bool, true, List, [], ◌∷◌, Option, none, some, String, ◌&&◌, arith,
  int_laws, keep_if, total, str_eq, str_eq_iff, if◌then◌else◌,
}
use red_room_rewards.Store.Interface.{DocStore, everything, measure}

pub record Eq (K : Type 0) : Type 0 where
  pub beq : K → K → Bool
  pub beq_iff : (a b : K) → (beq a b ≡ true) ↔ (a ≡ b)

abbrev pub Table : Type 0 → Type 0 → Type 0
Table K D = List (K × D)

abbrev pub docs : {K D : Type 0} → Table K D → List D
docs [] = []
docs ((k, d) ∷ t) = d ∷ docs t

module _ {K : Type 0} (e : Eq K) {D : Type 0} where
  abbrev pub get : K → Table K D → Option D
  get k [] = none
  get k ((j, d) ∷ t) = if e.beq k j then some d else get k t

  abbrev pub put : K → D → Table K D → Table K D
  put k d [] = (k, d) ∷ []
  put k d ((j, x) ∷ t) = if e.beq k j then (k, d) ∷ t else (j, x) ∷ put k d t

  -- Takes every entry of the key.
  abbrev pub remove : K → Table K D → Table K D
  remove k [] = []
  remove k ((j, x) ∷ t) = if e.beq k j then remove k t else (j, x) ∷ remove k t

  abbrev pub update_all : (D → Bool) → (D → D) → Table K D → Table K D
  update_all p f [] = []
  update_all p f ((j, x) ∷ t) =
      let rest = update_all p f t in if p x then (j, f x) ∷ rest else (j, x) ∷ rest

  pub get-update_all :
      (p : D → Bool) (f : D → D) (k : K) (d : D) (t : Table K D)
      → get k t ≡ some d
      → get k (update_all p f t) ≡ some (if p d then f d else d)
  get-update_all p f k d [] h = absurd (cc)
  get-update_all p f k d ((j, x) ∷ t) h = ground (arith, get-update_all p f k d t)

  pub find-everything :
      (p : D → Bool) (t : Table K D) → keep_if p (docs t) ≡ keep_if p (keep_if everything (docs t))
  find-everything p [] = refl
  find-everything p ((j, x) ∷ t) = ground (arith, find-everything p t)

  pub get-put_self : (k : K) (d : D) (t : Table K D) → get k (put k d t) ≡ some d
  get-put_self k d [] = ground (arith, e.beq_iff k k)
  get-put_self k d ((j, x) ∷ t) = ground (arith, e.beq_iff k k, e.beq_iff k j, get-put_self k d t)

  pub get-put_ne : (j k : K) (d : D) (t : Table K D) → j ≢ k → get j (put k d t) ≡ get j t
  get-put_ne j k d [] h = ground (arith, e.beq_iff j k)
  get-put_ne j k d ((i, x) ∷ t) h =
      ground (arith, e.beq_iff j k, e.beq_iff k i, e.beq_iff j i, get-put_ne j k d t h)

  pub get-remove_self : (k : K) (t : Table K D) → get k (remove k t) ≡ none
  get-remove_self k [] = refl
  get-remove_self k ((j, x) ∷ t) = ground (arith, get-remove_self k t)

  pub get-remove_ne : (j k : K) (t : Table K D) → j ≢ k → get j (remove k t) ≡ get j t
  get-remove_ne j k [] h = refl
  get-remove_ne j k ((i, x) ∷ t) h =
      ground (arith, e.beq_iff k i, e.beq_iff j i, get-remove_ne j k t h)

  pub total-put :
      (f : D → ℤ) (k : K) (d : D) (t : Table K D)
      → total f (keep_if everything (docs (put k d t))) +ℤ measure f (get k t)
        ≡ total f (keep_if everything (docs t)) +ℤ f d
  total-put f k d [] = omega int_laws
  total-put f k d ((j, x) ∷ t) = grind (int_laws, total-put f k d t)

  abbrev pub table : DocStore K D
  table = record {
    Docs = Table K D;
    get = get;
    put = put;
    remove = remove;
    find = λ p t. keep_if p (docs t);
    update_all = update_all;
    get-update_all = get-update_all;
    find-everything = find-everything;
    get-put_self = get-put_self;
    get-put_ne = get-put_ne;
    get-remove_self = get-remove_self;
    get-remove_ne = get-remove_ne;
    total-put = total-put;
  }

-- Texts, and pairs of texts, as keys.
abbrev pub by_text : Eq String
by_text = record { beq = str_eq; beq_iff = str_eq_iff }

abbrev pub pair_eq : String × String → String × String → Bool
pair_eq (a, b) (c, d) = str_eq a c && str_eq b d

pub pair_eq_iff : (p q : String × String) → (pair_eq p q ≡ true) ↔ (p ≡ q)
pair_eq_iff (a, b) (c, d) = ground (arith, str_eq_iff a c, str_eq_iff b d)

abbrev pub by_pair : Eq (String × String)
by_pair = record { beq = pair_eq; beq_iff = pair_eq_iff }
