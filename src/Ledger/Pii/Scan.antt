-- ===== src/Ledger/Pii/Scan.antt =====
-- The scan of the metadata in `createEntry` of ledger/ledger.service.ts, against what it looks
-- for.
use red_room_rewards.Prelude.{
  ◌≡◌, refl, ◌↔◌, inl, inr, true, [], ◌∷◌, All, none, some, arith, Bool-cases,
}
use red_room_rewards.Domain.{Metadata, MetaValue, text, other}
use red_room_rewards.Ledger.Pii.{is_pii_field, value_has_email, scan_metadata, pii_error}
use red_room_rewards.Ledger.Pii.Pattern.{HasAddress, IsHarmless}
use red_room_rewards.Ledger.Pii.Classes.{is_pii_field-IsForbidden, IsForbidden-is_pii_field}
use red_room_rewards.Ledger.Pii.Match.{has_email-Address, Address-has_email}

value_has_email-HasAddress : (v : MetaValue) → value_has_email v ≡ true → HasAddress v
value_has_email-HasAddress (text s) h = has_email-Address s h
value_has_email-HasAddress other h = absurd (cc)

HasAddress-value_has_email : (v : MetaValue) → HasAddress v → value_has_email v ≡ true
HasAddress-value_has_email (text s) h = Address-has_email s h
HasAddress-value_has_email other h = absurd h

passed : (m : Metadata) → scan_metadata m ≡ none → All IsHarmless m
unfolding scan_metadata
passed [] h = tt
passed ((key, val) ∷ rest) h = elim (Bool-cases (is_pii_field key)) [
  | inl named ↦ absurd (ground (arith))
  | inr plain ↦ elim (Bool-cases (value_has_email val)) [
    | inl mail ↦ absurd (ground (arith))
    | inr without ↦ (
      record {
        name = λ f. let named = IsForbidden-is_pii_field key f in cc;
        value = λ a. let mail = HasAddress-value_has_email val a in cc;
      },
      passed rest (ground arith),
    )
  ]
]

passes : (m : Metadata) → All IsHarmless m → scan_metadata m ≡ none
unfolding scan_metadata
passes [] h = refl
passes ((key, val) ∷ rest) (fine, more) = elim (Bool-cases (is_pii_field key)) [
  | inl named ↦ absurd (fine.name (is_pii_field-IsForbidden key named))
  | inr plain ↦ elim (Bool-cases (value_has_email val)) [
    | inl mail ↦ absurd (fine.value (value_has_email-HasAddress val mail))
    | inr without ↦ rw plain (rw without (passes rest more))
  ]
]

-- Metadata passes the check if and only if no top-level field, at any place, has a name whose lower
-- case is email, password, ssn, creditcard, phonenumber or phone, or a text that matches the pattern
-- for email addresses. Values that are no texts, nested fields among them, are not looked at.
pub pii_error-none_iff : (m : Metadata) → (pii_error (some m) ≡ none) ↔ All IsHarmless m
unfolding pii_error
pii_error-none_iff m = (passed m, passes m)
