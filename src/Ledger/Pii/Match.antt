-- ===== src/Ledger/Pii/Match.antt =====
-- The scan of a text in `createEntry` of ledger/ledger.service.ts finds what matches the pattern, and
-- nothing else.
use red_room_rewards.Prelude.{
  ℕ, ◌+◌, leb, ◌==◌, arith, ◌≡◌, refl, ◌&&◌, ◌||◌, Bool, true, false, Bool-cases, ◌⊎◌, inl, inr,
  List, [], ◌∷◌, Option, none, some, String, codes,
}
use red_room_rewards.Ledger.Pii.{
  is_letter, is_word, is_local, at_boundary, top_level, domain_tail, scan_email, has_email,
}
use red_room_rewards.Ledger.Pii.Pattern.{
  Word, LocalChar, DomainChar, Ends, TopLevel, DomainRest, LocalRest, WordAt, Address,
}
use red_room_rewards.Ledger.Pii.Classes.{
  is_letter-Letter, Letter-is_letter, is_word-Word, Word-is_word, is_local-LocalChar,
  LocalChar-is_local, is_domain-DomainChar, DomainChar-is_domain,
}

at_boundary-Ends : (s : List ℕ) → at_boundary s ≡ true → Ends s
unfolding at_boundary
at_boundary-Ends [] h = Ends.nothing
at_boundary-Ends (c ∷ s) h = Ends.other_char c s (λ w. let is = Word-is_word c w in ground arith)

Ends-at_boundary : (s : List ℕ) → Ends s → at_boundary s ≡ true
unfolding at_boundary
Ends-at_boundary [] e = refl
Ends-at_boundary (c ∷ s) (Ends.other_char _ _ never) = elim (Bool-cases (is_word c)) [
  | inl is ↦ absurd (never (is_word-Word c is))
  | inr differs ↦ rw differs refl
]

top_level-TopLevel : (n : ℕ) (s : List ℕ) → top_level n s ≡ true → TopLevel n s
unfolding top_level
top_level-TopLevel n [] h = TopLevel.ends n [] (ground arith) Ends.nothing
top_level-TopLevel n (c ∷ s) h = elim (Bool-cases (is_letter c)) [
  | inl is ↦
      TopLevel.more n c s (is_letter-Letter c is)
        (top_level-TopLevel (n + 1) s (rw (is, top_level) at h))
  | inr differs ↦
      let enough : leb 2 n ≡ true = ground arith in
      let ended : at_boundary (c ∷ s) ≡ true = ground arith in
      TopLevel.ends n (c ∷ s) (ground arith) (at_boundary-Ends (c ∷ s) ended)
]

TopLevel-top_level : (n : ℕ) (s : List ℕ) → TopLevel n s → top_level n s ≡ true
unfolding top_level
TopLevel-top_level n [] (TopLevel.ends _ _ enough e) = ground arith
TopLevel-top_level n (c ∷ s) (TopLevel.ends _ _ enough e) = elim (Bool-cases (is_letter c)) [
  | inl is ↦ absurd (letter_no_end e (Word.letter (is_letter-Letter c is)))
  | inr differs ↦ let ended = Ends-at_boundary (c ∷ s) e in rw (differs, top_level) (ground arith)
]
  where
    letter_no_end : Ends (c ∷ s) → Word c → ⊥
    letter_no_end (Ends.other_char _ _ never) w = never w
TopLevel-top_level n (c ∷ s) (TopLevel.more _ _ _ l t) =
    rw (Letter-is_letter c l, top_level) (TopLevel-top_level (n + 1) s t)

domain_tail-DomainRest : (s : List ℕ) → domain_tail true s ≡ true → DomainRest s
unfolding domain_tail
domain_tail-DomainRest [] h = absurd (cc)
domain_tail-DomainRest (c ∷ s) h = elim (Bool-cases (c == b'.' && top_level 0 s)) [
  | inl dotted ↦
      let is : c ≡ b'.' = ground arith in
      rw is (DomainRest.dots s (top_level-TopLevel 0 s (ground arith)))
  | inr on ↦
      DomainRest.more c s (is_domain-DomainChar c (ground arith))
        (domain_tail-DomainRest s (ground arith))
]

DomainRest-domain_tail : (s : List ℕ) → DomainRest s → domain_tail true s ≡ true
unfolding domain_tail
DomainRest-domain_tail [] d = elim d [ ]
DomainRest-domain_tail (c ∷ s) (DomainRest.dots _ t) =
    let tld = TopLevel-top_level 0 s t in ground arith
DomainRest-domain_tail (c ∷ s) (DomainRest.more _ _ d rest) =
    let is = DomainChar-is_domain c d in let on = DomainRest-domain_tail s rest in ground arith

domain-first : (s : List ℕ) → domain_tail false s ≡ true → LocalRest (b'@' ∷ s)
unfolding domain_tail
domain-first [] h = absurd (cc)
domain-first (c ∷ s) h =
    LocalRest.at_sign c s (is_domain-DomainChar c (ground arith))
      (domain_tail-DomainRest s (ground arith))

first-domain : (c : ℕ) (s : List ℕ) → DomainChar c → DomainRest s → domain_tail false (c ∷ s) ≡ true
unfolding domain_tail
first-domain c s d rest =
    let is = DomainChar-is_domain c d in let on = DomainRest-domain_tail s rest in ground arith

-- What is read of an address, if the local characters read last are part of it, is in it.
abbrev Found : Bool → Option ℕ → List ℕ → Type 0
Found in_local prev s = ((in_local ≡ true) × LocalRest s) ⊎ Address prev s

step :
    (in_local : Bool) (prev : Option ℕ) (c : ℕ) (s : List ℕ)
    → (WordAt prev → in_local ≡ true)
    → Found (is_local c && (in_local || is_word c)) (some c) s
    → Found in_local prev (c ∷ s)
step in_local prev c s known (inr found) = inr (Address.later prev c s found)
step true prev c s known (inl (goes_on, rest)) =
    inl (refl, LocalRest.more c s (is_local-LocalChar c (ground arith)) rest)
step false prev c s known (inl (goes_on, rest)) = inr (
    Address.here prev c s (inr (λ w. let bad = known w in cc, is_word-Word c (ground arith)))
      (is_local-LocalChar c (ground arith)) rest)

stays_known :
    (in_local : Bool) (c : ℕ) → WordAt (some c) → (is_local c && (in_local || is_word c)) ≡ true
stays_known in_local c w =
    let is = Word-is_word c w in let local = LocalChar-is_local c (LocalChar.word w) in ground arith

scan_email-Found :
    (in_local : Bool) (prev : Option ℕ) (s : List ℕ)
    → (WordAt prev → in_local ≡ true)
    → scan_email in_local s ≡ true
    → Found in_local prev s
unfolding scan_email
scan_email-Found in_local prev [] known h = absurd (cc)
scan_email-Found in_local prev (c ∷ s) known h =
    elim (Bool-cases (in_local && c == b'@' && domain_tail false s)) [
      | inl at ↦
          let is : c ≡ b'@' = ground arith in
          inl (ground arith, rw is (domain-first s (ground arith)))
      | inr on ↦ step in_local prev c s known (
          scan_email-Found (is_local c && (in_local || is_word c)) (some c) s
            (stays_known in_local c) (ground arith))
    ]

Found-scan_email :
    (in_local : Bool) (prev : Option ℕ) (s : List ℕ)
    → (WordAt prev → in_local ≡ true)
    → Found in_local prev s
    → scan_email in_local s ≡ true
unfolding scan_email
Found-scan_email in_local prev [] known (inl (is, rest)) = elim rest [ ]
Found-scan_email in_local prev [] known (inr a) = elim a [ ]
Found-scan_email in_local prev (x ∷ c ∷ s) known (inl (is, LocalRest.at_sign _ _ d rest)) =
    let at = first-domain c s d rest in ground arith
Found-scan_email in_local prev (c ∷ s) known (inl (is, LocalRest.more _ _ l rest)) =
    let local = LocalChar-is_local c l in
    let found =
      Found-scan_email (is_local c && (in_local || is_word c)) (some c) s (stays_known in_local c)
        (inl (ground arith, rest)) in
    ground arith
Found-scan_email in_local prev (c ∷ s) known (inr (Address.later _ _ _ a)) =
    let found =
      Found-scan_email (is_local c && (in_local || is_word c)) (some c) s (stays_known in_local c)
        (inr a) in
    ground arith
Found-scan_email in_local prev (c ∷ s) known (inr (Address.here _ _ _ edge l rest)) =
    let local = LocalChar-is_local c l in
    let found =
      Found-scan_email (is_local c && (in_local || is_word c)) (some c) s (stays_known in_local c)
        (inl (goes_on edge, rest)) in
    ground arith
  where
    goes_on :
        (WordAt prev × (Word c → ⊥)) ⊎ ((WordAt prev → ⊥) × Word c)
        → (is_local c && (in_local || is_word c)) ≡ true
    goes_on (inl (w, never)) =
        let local = LocalChar-is_local c l in let is = known w in ground arith
    goes_on (inr (never, w)) = stays_known in_local c w

pub has_email-Address : (s : String) → has_email s ≡ true → Address none (codes s)
unfolding has_email
has_email-Address s h = elim (scan_email-Found false none (codes s) (λ w. absurd w) h) [
  | inl (bad, rest) ↦ absurd (cc)
  | inr a ↦ a
]

pub Address-has_email : (s : String) → Address none (codes s) → has_email s ≡ true
unfolding has_email
Address-has_email s a = Found-scan_email false none (codes s) (λ w. absurd w) (inr a)
