-- ===== src/Ledger/Pii/Classes.antt =====
-- The tests of characters and names in the scan of `createEntry` of ledger/ledger.service.ts, against
-- the classes of its pattern.
use red_room_rewards.Prelude.{
  ℕ, ◌+◌, leb, ◌==◌, arith, ◌≡◌, refl, sym, ◌&&◌, true, Bool-cases, inl, inr, List, [], ◌∷◌, map,
  String, codes, Memᴰ, if◌then◌else◌,
}
use red_room_rewards.Ledger.Pii.{
  is_upper, is_letter, is_word, is_local, is_domain, lower_codes, same_codes, names_codes,
  pii_field_names, is_pii_field,
}
use red_room_rewards.Ledger.Pii.Pattern.{
  Letter, Word, LocalChar, DomainChar, Lowered, LoweredAll, IsForbidden,
}

module _ (c : ℕ) where
  pub is_letter-Letter : is_letter c ≡ true → Letter c
  unfolding is_letter is_upper
  is_letter-Letter h = elim (Bool-cases (leb b'A' c && leb c b'Z')) [
    | inl up ↦ Letter.upper (ground arith) (ground arith)
    | inr down ↦ Letter.lower (ground arith) (ground arith)
  ]

  pub Letter-is_letter : Letter c → is_letter c ≡ true
  unfolding is_letter is_upper
  Letter-is_letter (Letter.upper a b) = ground arith
  Letter-is_letter (Letter.lower a b) = ground arith

  pub is_word-Word : is_word c ≡ true → Word c
  unfolding is_word
  is_word-Word h = elim (Bool-cases (is_letter c)) [
    | inl is ↦ Word.letter (is_letter-Letter is)
    | inr differs ↦ elim (Bool-cases (c == b'_')) [
      | inl is ↦ Word.underscore (ground arith)
      | inr other ↦ Word.digit (ground arith) (ground arith)
    ]
  ]

  pub Word-is_word : Word c → is_word c ≡ true
  unfolding is_word
  Word-is_word (Word.letter l) = let is = Letter-is_letter l in ground arith
  Word-is_word (Word.digit a b) = ground arith
  Word-is_word (Word.underscore e) = ground arith

  pub is_local-LocalChar : is_local c ≡ true → LocalChar c
  unfolding is_local
  is_local-LocalChar h = elim (Bool-cases (is_word c)) [
    | inl is ↦ LocalChar.word (is_word-Word is)
    | inr differs ↦ elim (Bool-cases (c == b'.')) [
      | inl is ↦ LocalChar.dot (ground arith)
      | inr no_dot ↦ elim (Bool-cases (c == b'%')) [
        | inl is ↦ LocalChar.percent (ground arith)
        | inr no_percent ↦ elim (Bool-cases (c == b'+')) [
          | inl is ↦ LocalChar.plus (ground arith)
          | inr no_plus ↦ LocalChar.minus (ground arith)
        ]
      ]
    ]
  ]

  pub LocalChar-is_local : LocalChar c → is_local c ≡ true
  unfolding is_local
  LocalChar-is_local (LocalChar.word w) = let is = Word-is_word w in ground arith
  LocalChar-is_local (LocalChar.dot e) = ground arith
  LocalChar-is_local (LocalChar.percent e) = ground arith
  LocalChar-is_local (LocalChar.plus e) = ground arith
  LocalChar-is_local (LocalChar.minus e) = ground arith

  pub is_domain-DomainChar : is_domain c ≡ true → DomainChar c
  unfolding is_domain is_word
  is_domain-DomainChar h = elim (Bool-cases (is_letter c)) [
    | inl is ↦ DomainChar.letter (is_letter-Letter is)
    | inr differs ↦ elim (Bool-cases (c == b'.')) [
      | inl is ↦ DomainChar.dot (ground arith)
      | inr no_dot ↦ elim (Bool-cases (c == b'-')) [
        | inl is ↦ DomainChar.minus (ground arith)
        | inr no_minus ↦ DomainChar.digit (ground arith) (ground arith)
      ]
    ]
  ]

  pub DomainChar-is_domain : DomainChar c → is_domain c ≡ true
  unfolding is_domain is_word is_letter is_upper
  DomainChar-is_domain (DomainChar.letter (Letter.upper a b)) = ground arith
  DomainChar-is_domain (DomainChar.letter (Letter.lower a b)) = ground arith
  DomainChar-is_domain (DomainChar.digit a b) = ground arith
  DomainChar-is_domain (DomainChar.dot e) = ground arith
  DomainChar-is_domain (DomainChar.minus e) = ground arith

abbrev lowered : ℕ → ℕ
lowered c = if is_upper c then c + 32 else c

lowered-Lowered : (c : ℕ) → Lowered c (lowered c)
unfolding is_upper
lowered-Lowered c = elim (Bool-cases (leb b'A' c && leb c b'Z')) [
  | inl up ↦ rw up (Lowered.upper c (ground arith) (ground arith))
  | inr differs ↦ rw differs (Lowered.same c (λ a b. ground arith))
]

Lowered-lowered : (b c : ℕ) → Lowered b c → lowered b ≡ c
unfolding is_upper
Lowered-lowered b c (Lowered.upper _ a z) = ground arith
Lowered-lowered b c (Lowered.same _ never) = elim (Bool-cases (leb b'A' b && leb b b'Z')) [
  | inl up ↦ absurd (never (ground arith) (ground arith))
  | inr differs ↦ ground arith
]

lowered_all : (s t : List ℕ) → same_codes t (map lowered s) ≡ true → LoweredAll s t
unfolding same_codes
lowered_all [] [] h = LoweredAll.nothing
lowered_all [] (c ∷ t) h = absurd (cc)
lowered_all (b ∷ s) [] h = absurd (cc)
lowered_all (b ∷ s) (c ∷ t) h =
    let eq : lowered b ≡ c = ground arith in
    LoweredAll.next b c s t (rw (sym eq) (lowered-Lowered b)) (lowered_all s t (ground arith))

all_lowered : (s t : List ℕ) → LoweredAll s t → same_codes t (map lowered s) ≡ true
unfolding same_codes
all_lowered [] [] LoweredAll.nothing = refl
all_lowered [] (c ∷ t) l = elim l [ ]
all_lowered (b ∷ s) [] l = elim l [ ]
all_lowered (b ∷ s) (c ∷ t) (LoweredAll.next _ _ _ _ l ls) =
    let first = Lowered-lowered b c l in let rest = all_lowered s t ls in ground arith

named :
    (ns : List String) (s : List ℕ)
    → names_codes ns (map lowered s) ≡ true
    → (n : String) × Memᴰ n ns × LoweredAll s (codes n)
unfolding names_codes
named [] s h = absurd (cc)
named (n ∷ ns) s h = elim (Bool-cases (same_codes (codes n) (map lowered s))) [
  | inl is ↦ (n, Memᴰ.head refl, lowered_all s (codes n) is)
  | inr differs ↦
      let (m, there, is) = named ns s (rw (differs, names_codes) at h) in (m, Memᴰ.tail there, is)
]

name_found :
    (n : String) (ns : List String) (s : List ℕ)
    → Memᴰ n ns
    → LoweredAll s (codes n)
    → names_codes ns (map lowered s) ≡ true
unfolding names_codes
name_found n [] s m l = elim m [ ]
name_found n (x ∷ ns) s (Memᴰ.head e) l =
    let is = all_lowered s (codes x) (rw (sym e) l) in ground arith
name_found n (x ∷ ns) s (Memᴰ.tail m) l = let rest = name_found n ns s m l in ground arith

pub is_pii_field-IsForbidden : (key : String) → is_pii_field key ≡ true → IsForbidden key
unfolding is_pii_field lower_codes
is_pii_field-IsForbidden key h =
    let (n, listed, is) = named pii_field_names (codes key) h in
    record { name = n; listed = listed; lowered = is }

pub IsForbidden-is_pii_field : (key : String) → IsForbidden key → is_pii_field key ≡ true
unfolding is_pii_field lower_codes
IsForbidden-is_pii_field key f = name_found f.name pii_field_names (codes key) f.listed f.lowered
