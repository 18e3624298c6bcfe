-- ===== src/Ledger/Pii/Pattern.antt =====
-- What the pattern for email addresses and the set of field names in `createEntry` of
-- ledger/ledger.service.ts stand for, apart from how a text is scanned for them.
use red_room_rewards.Prelude.{
  ℕ, ◌+◌, ◌≤◌, String, ◌≡◌, ◌⊎◌, List, [], ◌∷◌, Option, none, some, codes, Memᴰ,
}
use red_room_rewards.Domain.{MetaValue, text, other}

-- `[A-Za-z]`
pub data Letter (c : ℕ) : Type 0 where
  upper : b'A' ≤ c → c ≤ b'Z' → Letter c
  lower : b'a' ≤ c → c ≤ b'z' → Letter c

-- `\w`
pub data Word (c : ℕ) : Type 0 where
  letter : Letter c → Word c
  digit : b'0' ≤ c → c ≤ b'9' → Word c
  underscore : c ≡ b'_' → Word c

-- `[A-Za-z0-9._%+-]`
pub data LocalChar (c : ℕ) : Type 0 where
  word : Word c → LocalChar c
  dot : c ≡ b'.' → LocalChar c
  percent : c ≡ b'%' → LocalChar c
  plus : c ≡ b'+' → LocalChar c
  minus : c ≡ b'-' → LocalChar c

-- `[A-Za-z0-9.-]`
pub data DomainChar (c : ℕ) : Type 0 where
  letter : Letter c → DomainChar c
  digit : b'0' ≤ c → c ≤ b'9' → DomainChar c
  dot : c ≡ b'.' → DomainChar c
  minus : c ≡ b'-' → DomainChar c

-- `\b` behind a letter
pub data Ends : List ℕ → Type 0 where
  nothing : Ends []
  other_char : (c : ℕ) (s : List ℕ) → (Word c → ⊥) → Ends (c ∷ s)

-- `[A-Za-z]{2,}\b`, after a number of letters
pub data TopLevel : ℕ → List ℕ → Type 0 where
  ends : (n : ℕ) (s : List ℕ) → 2 ≤ n → Ends s → TopLevel n s
  more : (n c : ℕ) (s : List ℕ) → Letter c → TopLevel (n + 1) s → TopLevel n (c ∷ s)

-- `[A-Za-z0-9.-]*\.[A-Za-z]{2,}\b`
pub data DomainRest : List ℕ → Type 0 where
  dots : (s : List ℕ) → TopLevel 0 s → DomainRest (b'.' ∷ s)
  more : (c : ℕ) (s : List ℕ) → DomainChar c → DomainRest s → DomainRest (c ∷ s)

-- `[A-Za-z0-9._%+-]*@[A-Za-z0-9.-]+\.[A-Za-z]{2,}\b`
pub data LocalRest : List ℕ → Type 0 where
  at_sign : (c : ℕ) (s : List ℕ) → DomainChar c → DomainRest s → LocalRest (b'@' ∷ c ∷ s)
  more : (c : ℕ) (s : List ℕ) → LocalChar c → LocalRest s → LocalRest (c ∷ s)

abbrev pub WordAt : Option ℕ → Type 0
WordAt none = ⊥
WordAt (some c) = Word c

-- The whole pattern, at the start of the text or further on, behind the character `prev`: `\b` is a
-- place where a word character stands on exactly one side.
pub data Address : Option ℕ → List ℕ → Type 0 where
  here :
      (prev : Option ℕ) (c : ℕ) (s : List ℕ)
      → (WordAt prev × (Word c → ⊥)) ⊎ ((WordAt prev → ⊥) × Word c)
      → LocalChar c
      → LocalRest s
      → Address prev (c ∷ s)
  later : (prev : Option ℕ) (c : ℕ) (s : List ℕ) → Address (some c) s → Address prev (c ∷ s)

-- A character and its lower case.
pub data Lowered : ℕ → ℕ → Type 0 where
  upper : (c : ℕ) → b'A' ≤ c → c ≤ b'Z' → Lowered c (c + 32)
  same : (c : ℕ) → (b'A' ≤ c → c ≤ b'Z' → ⊥) → Lowered c c

pub data LoweredAll : List ℕ → List ℕ → Type 0 where
  nothing : LoweredAll [] []
  next : (b c : ℕ) (s t : List ℕ) → Lowered b c → LoweredAll s t → LoweredAll (b ∷ s) (c ∷ t)

abbrev forbidden_names : List String
forbidden_names = "email" ∷ "password" ∷ "ssn" ∷ "creditcard" ∷ "phonenumber" ∷ "phone" ∷ []

-- The name, in lower case, is one of the set.
pub record IsForbidden (key : String) : Type 0 where
  pub name : String
  pub listed : Memᴰ name forbidden_names
  pub lowered : LoweredAll (codes key) (codes name)

-- The value is a text with an address in it.
abbrev pub HasAddress : MetaValue → Type 0
HasAddress (text s) = Address none (codes s)
HasAddress other = ⊥

-- The field has neither a forbidden name nor an address in its value.
pub record IsHarmless (field : String × MetaValue) : Type 0 where
  pub name : IsForbidden field.0 → ⊥
  pub value : HasAddress field.1 → ⊥
