-- ===== src/Base/Text.antt =====
-- Go strings as texts of code points. A Go `len` counts the bytes of UTF-8, `byte_len` here; a
-- `range` over a string counts code points.
use Prim.Native.Nat.{ℕ, suc, ◌+◌, ◌≤◌}
use Prim.Native.Char.{code}
use Prim.Native.String.{String}
use mathlib.Core.Path.{◌≡◌, refl, ap}
use mathlib.Core.Bool.{Bool, true, false, ◌&&◌, ◌||◌}
use native.Mathlib.Omega.{arith}
pub use text.Mathlib.Text.{◌==◌ as str_eq}
pub use text.Mathlib.TextEquality.{eq_iff}
use text.Mathlib.TextPositions.{eq_refl}
use ytsync.Base.Tests.{ltb, ◌==◌, if◌then◌else◌}

pub str_eq_refl : (s : String) → str_eq s s ≡ true
str_eq_refl s = eq_refl s

-- s + t, for Go strings.
infixr 66 ◌⧺◌
abbrev pub ◌⧺◌ : String → String → String
String.[] ⧺ t = t
(String.◌∷◌ c s) ⧺ t = String.◌∷◌ c (s ⧺ t)

abbrev utf8_width : ℕ → ℕ
utf8_width c = if ltb c 0x80 then 1 else if ltb c 0x800 then 2 else if ltb c 0x10000 then 3 else 4

-- len(s)
unfoldable pub byte_len : String → ℕ
byte_len String.[] = 0
byte_len (String.◌∷◌ c s) = utf8_width (code c) + byte_len s

unfoldable pub rune_count : String → ℕ
rune_count String.[] = 0
rune_count (String.◌∷◌ c s) = suc (rune_count s)

-- strings.HasPrefix(s, prefix)
unfoldable pub has_prefix : String → String → Bool
has_prefix s String.[] = true
has_prefix String.[] (String.◌∷◌ p ps) = false
has_prefix (String.◌∷◌ c s) (String.◌∷◌ p ps) = code c == code p && has_prefix s ps

-- strings.Contains(s, substr)
unfoldable pub contains : String → String → Bool
unfolding has_prefix
contains String.[] sub = has_prefix "" sub
contains (String.◌∷◌ c s) sub = has_prefix (String.◌∷◌ c s) sub || contains s sub

pub byte_len-append : (s t : String) → byte_len (s ⧺ t) ≡ byte_len s + byte_len t
unfolding byte_len
byte_len-append String.[] t = omega arith
byte_len-append (String.◌∷◌ c s) t = omega (arith, byte_len-append s t)

pub rune_count-append : (s t : String) → rune_count (s ⧺ t) ≡ rune_count s + rune_count t
unfolding rune_count
rune_count-append String.[] t = omega arith
rune_count-append (String.◌∷◌ c s) t = omega (arith, rune_count-append s t)

one-le-utf8_width : (c : ℕ) → 1 ≤ utf8_width c
one-le-utf8_width c = ground arith

pub rune_count-le-byte_len : (s : String) → rune_count s ≤ byte_len s
unfolding rune_count byte_len
rune_count-le-byte_len String.[] = omega arith
rune_count-le-byte_len (String.◌∷◌ c s) =
    omega (arith, one-le-utf8_width (code c), rune_count-le-byte_len s)

pub text_append_assoc : (s t u : String) → (s ⧺ t) ⧺ u ≡ s ⧺ (t ⧺ u)
text_append_assoc String.[] t u = refl
text_append_assoc (String.◌∷◌ c s) t u = ap (String.◌∷◌ c) (text_append_assoc s t u)
