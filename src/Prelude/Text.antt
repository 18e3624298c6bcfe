-- ===== src/Prelude/Text.antt =====
-- Tests on texts: equality, emptiness and blankness as JavaScript has them, and the conditions of
-- queries.
use Prim.Native.Nat.{ℕ}
use Prim.Native.Char.{code}
use Prim.Native.String.{String, ◌++◌ as concat}
use mathlib.Core.Path.{◌≡◌}
use mathlib.Core.Logic.{◌↔◌, ◌≢◌}
use mathlib.Core.Bool.{Bool, true, false, ◌&&◌, ◌||◌}
use mathlib.Core.List.{List, [], ◌∷◌}
use mathlib.Core.Option.{Option, none, some}
use text.Mathlib.Text.{◌==◌ as text_eq}
use text.Mathlib.TextEquality.{eq_iff}
use text.Mathlib.TextLemmas.{append_cancel_left}
use red_room_rewards.Prelude.Tests.{leb, ◌==◌, if◌then◌else◌}

abbrev pub str_eq : String → String → Bool
str_eq = text_eq

pub str_eq_iff : (s t : String) → (str_eq s t ≡ true) ↔ (s ≡ t)
str_eq_iff s t = eq_iff s t

-- The code points of a text.
abbrev pub codes : String → List ℕ
codes String.[] = []
codes (String.◌∷◌ c s) = code c ∷ codes s

-- `xs.includes(s)`.
abbrev pub includes : List String → String → Bool
includes [] s = false
includes (x ∷ xs) s = str_eq x s || includes xs s

-- White space, as `trim` has it.
unfoldable pub is_space : ℕ → Bool
is_space c =
    (leb 9 c && leb c 13)
    || c == 32
    || c == 0xa0
    || c == 0x1680
    || (leb 0x2000 c && leb c 0x200a)
    || c == 0x2028
    || c == 0x2029
    || c == 0x202f
    || c == 0x205f
    || c == 0x3000
    || c == 0xfeff

all_spaces : List ℕ → Bool
all_spaces [] = true
all_spaces (c ∷ cs) = is_space c && all_spaces cs

-- `s.trim().length === 0`.
unfoldable pub is_blank : String → Bool
unfolding is_space all_spaces
is_blank s = all_spaces (codes s)

-- `s ? a : b` on a text: the empty text is falsy.
abbrev pub is_empty : String → Bool
is_empty s = str_eq s ""

-- A condition of a query on a text, if the option is given and not empty.
abbrev pub asks_for : Option String → Option String → Bool
asks_for none value = true
asks_for (some s) none = is_empty s
asks_for (some s) (some value) = if is_empty s then true else str_eq value s

abbrev pub from_date : Option ℕ → ℕ → Bool
from_date none t = true
from_date (some start) t = leb start t

abbrev pub to_date : Option ℕ → ℕ → Bool
to_date none t = true
to_date (some end_date) t = leb t end_date

-- `o || d` on an optional text.
abbrev pub or_text : Option String → String → String
or_text none d = d
or_text (some s) d = elim (is_empty s) [ true ↦ d | false ↦ s ]

-- `${s}${t}`
abbrev pub suffixed : String → String → String
suffixed s t = concat s t

-- Different endings make different keys.
pub suffixed-ne : (s t u : String) → t ≢ u → suffixed s t ≢ suffixed s u
suffixed-ne s t u ne e = ne (append_cancel_left s t u e)

-- Two texts that the test tells apart.
pub texts-differ : (a b : String) → str_eq a b ≡ false → a ≢ b
texts-differ a b h p = absurd (let same = (str_eq_iff a b).1 p in cc)
