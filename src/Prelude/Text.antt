-- ===== src/Prelude/Text.antt =====
-- Text as its code points, where the program walks it: `str.strip`, `str.lower`, `str.upper`, `len`, `==`.
-- Letters beyond ASCII are left as they are by `lower` and `upper`; `strip` knows every code point
-- that Python's `str.isspace` accepts.
use Prim.Native.Char.{code}
use Prim.Native.Nat.{ℕ, ◌+◌, ◌-◌}
use Prim.Native.String.{String}
use mathlib.Core.Path.{◌≡◌, refl}
use mathlib.Core.Logic.{◌↔◌}
use mathlib.Core.Bool.{Bool, true, false, ◌&&◌, ◌||◌}
use mathlib.Core.List.{List, [], ◌∷◌, map, reverse}
use native.Mathlib.Omega.{arith}
use open_sec_dash.Prelude.Tests.{ltb, leb, if◌then◌else◌}
use open_sec_dash.Prelude.Equality.{Comparable, ◌==◌, nat_eq}

abbrev pub Text : Type 0
Text = List ℕ

abbrev pub codes : String → Text
codes String.[] = []
codes (String.◌∷◌ c s) = code c ∷ codes s

abbrev pub text_beq : Text → Text → Bool
text_beq [] [] = true
text_beq [] (b ∷ bs) = false
text_beq (a ∷ as') [] = false
text_beq (a ∷ as') (b ∷ bs) = a == b && text_beq as' bs

pub text_beq_iff : (a b : Text) → (text_beq a b ≡ true) ↔ (a ≡ b)
text_beq_iff [] [] = ground arith
text_beq_iff [] (b ∷ bs) = ground arith
text_beq_iff (a ∷ as') [] = ground arith
text_beq_iff (a ∷ as') (b ∷ bs) = ground (arith, text_beq_iff as' bs)

instance abbrev pub text_eq : Comparable Text
text_eq = record { equals = text_beq; equals_iff = text_beq_iff }

unfoldable pub is_space : ℕ → Bool
is_space c =
    (leb 9 c && leb c 13)
    || (leb 28 c && leb c 32)
    || c == 0x85
    || c == 0xa0
    || c == 0x1680
    || (leb 0x2000 c && leb c 0x200a)
    || c == 0x2028
    || c == 0x2029
    || c == 0x202f
    || c == 0x205f
    || c == 0x3000

lstrip : Text → Text
unfolding is_space
lstrip [] = []
lstrip (c ∷ s) = let rest = lstrip s in if is_space c then rest else c ∷ s

unfoldable pub strip : Text → Text
unfolding lstrip
strip s = reverse (lstrip (reverse (lstrip s)))

is_upper : ℕ → Bool
is_upper c = leb b'A' c && leb c b'Z'

lower_code : ℕ → ℕ
unfolding is_upper
lower_code c = if is_upper c then c + 32 else c

unfoldable pub lower : Text → Text
unfolding lower_code
lower = map lower_code

is_lower : ℕ → Bool
is_lower c = leb b'a' c && leb c b'z'

upper_code : ℕ → ℕ
unfolding is_lower
upper_code c = if is_lower c then c - 32 else c

unfoldable pub upper : Text → Text
unfolding upper_code
upper = map upper_code

pub lower-lower : (s : Text) → lower (lower s) ≡ lower s
unfolding lower
lower-lower [] = refl
lower-lower (c ∷ s) = ground (arith, lower-lower s)

into_first : ℕ → List Text → List Text
into_first c [] = (c ∷ []) ∷ []
into_first c (part ∷ parts) = (c ∷ part) ∷ parts

-- s.split(separator)
unfoldable pub split : ℕ → Text → List Text
unfolding into_first
split separator [] = [] ∷ []
split separator (c ∷ s) =
    let rest = split separator s in if c == separator then [] ∷ rest else into_first c rest

-- s.split(separator, 1)[0]
unfoldable pub before : ℕ → Text → Text
before separator [] = []
before separator (c ∷ s) = let rest = before separator s in if c == separator then [] else c ∷ rest

-- value.startswith(prefix)
unfoldable pub starts_with : Text → Text → Bool
starts_with [] value = true
starts_with (c ∷ p) [] = false
starts_with (c ∷ p) (d ∷ value) = c == d && starts_with p value

-- `<` on `str`
unfoldable pub text_ltb : Text → Text → Bool
text_ltb s [] = false
text_ltb [] (d ∷ t) = true
text_ltb (c ∷ s) (d ∷ t) = ltb c d || (c == d && text_ltb s t)

strip_runs : strip (codes "  a b\t") ≡ codes "a b"
unfolding strip
strip_runs = refl
