-- ===== src/Ledger/Pii.antt =====
-- The check of `createEntry` that an entry's metadata holds no personal data: a field name out of a
-- fixed set, without regard to case, or a text that matches
-- `/\b[A-Za-z0-9._%+-]+@[A-Za-z0-9.-]+\.[A-Za-z]{2,}\b/`. The set and the pattern are ASCII, so
-- lower-casing is that of the ASCII letters.
pub mod Pattern
mod Classes
mod Match
pub mod Scan
use red_room_rewards.Prelude.{
  ℕ, ◌+◌, String, Bool, true, false, not, ◌&&◌, ◌||◌, List, [], ◌∷◌, map, Option, none, some, leb,
  ◌==◌, if◌then◌else◌, codes,
}
use red_room_rewards.Domain.{Error, pii_in_field, email_in_field, Metadata, MetaValue, text, other}

is_upper : ℕ → Bool
is_upper c = leb b'A' c && leb c b'Z'

pub is_letter : ℕ → Bool
unfolding is_upper
is_letter c = is_upper c || (leb b'a' c && leb c b'z')

-- `\w`
pub is_word : ℕ → Bool
unfolding is_letter
is_word c = is_letter c || (leb b'0' c && leb c b'9') || c == b'_'

-- `[A-Za-z0-9._%+-]`
pub is_local : ℕ → Bool
unfolding is_word
is_local c = is_word c || c == b'.' || c == b'%' || c == b'+' || c == b'-'

-- `[A-Za-z0-9.-]`
pub is_domain : ℕ → Bool
unfolding is_word
is_domain c = (is_word c && not (c == b'_')) || c == b'.' || c == b'-'

-- `\b` after a letter: the text ends, or goes on with no word character.
at_boundary : List ℕ → Bool
unfolding is_word
at_boundary [] = true
at_boundary (c ∷ cs) = not (is_word c)

-- `[A-Za-z]{2,}\b`, with `seen` letters already matched (counted up to two). Between two letters
-- there is no boundary, so the run has to be taken whole.
top_level : ℕ → List ℕ → Bool
unfolding is_letter at_boundary
top_level seen [] = leb 2 seen
top_level seen (c ∷ cs) =
    let more = top_level (seen + 1) cs in
    if is_letter c then more else leb 2 seen && at_boundary (c ∷ cs)

-- `[A-Za-z0-9.-]+\.[A-Za-z]{2,}\b`, with `seen` telling whether a domain character has been read:
-- every dot after the first is tried as the last one.
domain_tail : Bool → List ℕ → Bool
unfolding is_domain top_level
domain_tail seen [] = false
domain_tail seen (c ∷ cs) =
    let more = domain_tail true cs in (seen && c == b'.' && top_level 0 cs) || (is_domain c && more)

-- The scan for an `@`. `in_local` tells whether the characters read last are a run of local ones
-- that began at a word boundary, which it did if the run holds a word character.
scan_email : Bool → List ℕ → Bool
unfolding is_word is_local domain_tail
scan_email in_local [] = false
scan_email in_local (c ∷ cs) =
    let rest = scan_email (is_local c && (in_local || is_word c)) cs in
    (in_local && c == b'@' && domain_tail false cs) || rest

-- `emailPattern.test(val)`
unfoldable pub has_email : String → Bool
unfolding scan_email
has_email s = scan_email false (codes s)

-- `key.toLowerCase()`, as code points.
lower_codes : String → List ℕ
unfolding is_upper
lower_codes s = map (λ c. if is_upper c then c + 32 else c) (codes s)

same_codes : List ℕ → List ℕ → Bool
same_codes [] [] = true
same_codes [] (b ∷ bs) = false
same_codes (a ∷ as') [] = false
same_codes (a ∷ as') (b ∷ bs) = a == b && same_codes as' bs

-- `piiFieldNames`
abbrev pii_field_names : List String
pii_field_names = "email" ∷ "password" ∷ "ssn" ∷ "creditcard" ∷ "phonenumber" ∷ "phone" ∷ []

names_codes : List String → List ℕ → Bool
unfolding same_codes
names_codes [] k = false
names_codes (n ∷ ns) k = same_codes (codes n) k || names_codes ns k

-- `piiFieldNames.has(key.toLowerCase())`
unfoldable pub is_pii_field : String → Bool
unfolding lower_codes names_codes
is_pii_field key = names_codes pii_field_names (lower_codes key)

abbrev pub value_has_email : MetaValue → Bool
value_has_email (text s) = has_email s
value_has_email other = false

-- The loop over `Object.keys(request.metadata)`: the first error that it throws.
unfoldable pub scan_metadata : Metadata → Option Error
scan_metadata [] = none
scan_metadata ((key, val) ∷ rest) =
    let more = scan_metadata rest in
    if is_pii_field key
    then some (pii_in_field key)
    else if value_has_email val
    then some (email_in_field key)
    else more

-- `if (request.metadata) { … }`
unfoldable pub pii_error : Option Metadata → Option Error
unfolding scan_metadata
pii_error none = none
pii_error (some m) = scan_metadata m
