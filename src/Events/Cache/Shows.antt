-- ===== src/Events/Cache/Shows.antt =====
-- What it means that an entry of the cache of events/balance-snapshot-cache.ts shows the summary of
-- the reports, and lemmas on the keys of the cache.
use red_room_rewards.Prelude.{
  ℕ, ◌<◌, pos, String, str_eq, str_eq_iff, suffixed, ◌≡◌, ◌≢◌, refl, ap, Option, none, some,
  or_else, Bool-cases, inl, inr, arith, if◌then◌else◌,
}
use text.Mathlib.TextLemmas.{append_cancel_left, cons-append}
use Prim.Native.Char.{Char, code}
use red_room_rewards.Domain.{AccountType}
use red_room_rewards.Events.Cache.{CachedBalance, get_cache_key}
use red_room_rewards.Events.Cache.Reports.{Summary, unmentioned}

-- The entry shows the summary: balances that no event gave are zero or absent.
pub record ShowsEntry (s : Summary) (c : CachedBalance) : Type 0 where
  pub mentioned : 0 < s.mentions
  pub shows_available : c.available_balance ≡ s.available
  pub shows_escrow : or_else c.escrow_balance (pos 0) ≡ s.escrow
  pub shows_earned : or_else c.earned_balance (pos 0) ≡ s.earned
  pub shows_time : c.last_updated ≡ s.time
  pub shows_count : c.version ≡ s.mentions

abbrev pub Shows : Summary → Option CachedBalance → Type 0
Shows s none = s ≡ unmentioned
Shows s (some c) = ShowsEntry s c

first_code : String → ℕ
first_code String.[] = 0
first_code (String.◌∷◌ c s) = code c

first_code_append : (c : Char) (s t : String) → first_code (suffixed (String.◌∷◌ c s) t) ≡ code c
unfolding first_code
first_code_append c s t = ap first_code (cons-append c s t)

pub user-model-differ : (a b : String) → suffixed "user:" a ≢ suffixed "model:" b
user-model-differ a b h =
    let u : first_code (suffixed "user:" a) ≡ b'u' = first_code_append "u" "ser:" a in
    let m : first_code (suffixed "model:" b) ≡ b'm' = first_code_append "m" "odel:" b in
    absurd (omega (arith, u, m, ap first_code h))

pub key-injective :
    (type : AccountType) (a b : String) → get_cache_key a type ≡ get_cache_key b type → a ≡ b
key-injective AccountType.user a b h = append_cancel_left "user:" a b h
key-injective AccountType.model a b h = append_cancel_left "model:" a b h

pub pick : {A : Type 0} → (a b : String) (x y : A) → a ≡ b → (if str_eq a b then x else y) ≡ x
pick a b x y h = rw ((str_eq_iff a b).1 h) refl

pub skip : {A : Type 0} → (a b : String) (x y : A) → a ≢ b → (if str_eq a b then x else y) ≡ y
skip a b x y h = elim (Bool-cases (str_eq a b)) [
  | inl same ↦ absurd (h ((str_eq_iff a b).0 same))
  | inr other ↦ rw other refl
]
