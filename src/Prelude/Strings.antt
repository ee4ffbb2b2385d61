-- ===== src/Prelude/Strings.antt =====
-- A Go string as the list of its code points, with the functions of the packages `strings` and
-- `unicode` that the backend calls. The strings are taken to be valid UTF-8.
use Prim.Native.Char.{code}
use Prim.Native.Nat.{ℕ, ◌+◌}
use Prim.Native.String.{String}
use mathlib.Core.Path.{◌≡◌, refl}
use mathlib.Core.Bool.{Bool, true, false, ◌&&◌, ◌||◌}
use mathlib.Core.List.{List, [], ◌∷◌, reverse}
use native.Mathlib.Omega.{arith}
use snow_panel.Prelude.Tests.{ltb, leb, ◌==◌, if◌then◌else◌}

abbrev pub Text : Type 0
Text = List ℕ

codes : String → Text
codes String.[] = []
codes (String.◌∷◌ c s) = code c ∷ codes s

-- A string literal of the source.
unfoldable pub text : String → Text
unfolding codes
text s = codes s

-- `a == b` on strings.
unfoldable pub text_eq : Text → Text → Bool
text_eq [] [] = true
text_eq (a ∷ s) (b ∷ t) = a == b && text_eq s t
text_eq _ _ = false

pub text_eq_sound : (s t : Text) → text_eq s t ≡ true → s ≡ t
unfolding text_eq
text_eq_sound [] [] h = refl
text_eq_sound [] (b ∷ t) h = cc
text_eq_sound (a ∷ s) [] h = cc
text_eq_sound (a ∷ s) (b ∷ t) h = ground (arith, text_eq_sound s t)

pub text_eq_refl : (s : Text) → text_eq s s ≡ true
unfolding text_eq
text_eq_refl [] = refl
text_eq_refl (a ∷ s) = ground (arith, text_eq_refl s)

-- `s == ""`.
abbrev pub is_empty : Text → Bool
is_empty [] = true
is_empty (c ∷ s) = false

-- `unicode.IsSpace`: the code points with the property White_Space.
unfoldable pub is_space : ℕ → Bool
is_space c =
    (leb 9 c && leb c 13)
    || c == 32
    || c == 133
    || c == 160
    || c == 5760
    || (leb 8192 c && leb c 8202)
    || c == 8232
    || c == 8233
    || c == 8239
    || c == 8287
    || c == 12288

-- `unicode.IsControl`: the category Cc.
unfoldable pub is_control : ℕ → Bool
is_control c = leb c 31 || (leb 127 c && leb c 159)

unfoldable pub trim_left : Text → Text
trim_left [] = []
trim_left (c ∷ s) = let rest = trim_left s in if is_space c then rest else c ∷ s

-- `strings.TrimSpace`.
unfoldable pub trim_space : Text → Text
unfolding trim_left is_space
trim_space s = reverse (trim_left (reverse (trim_left s)))

-- The bytes that a code point takes in UTF-8.
abbrev pub rune_len : ℕ → ℕ
rune_len c = if ltb c 128 then 1 else if ltb c 2048 then 2 else if ltb c 65536 then 3 else 4

-- `len(s)`: the bytes of a string.
unfoldable pub byte_len : Text → ℕ
byte_len [] = 0
byte_len (c ∷ s) = rune_len c + byte_len s
