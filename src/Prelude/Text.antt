-- ===== src/Prelude/Text.antt =====
-- Strings as lists of code units, which for the program's keys are ASCII.
pub mod Decimal
use Prim.Native.Nat.{ℕ, zero, suc, ◌+◌, ◌/◌, ◌%◌}
use Prim.Native.Char.{code}
use Prim.Native.String.{String}
use mathlib.Core.Bool.{Bool, true, false, ◌&&◌, ◌||◌}
use mathlib.Core.List.{List, [], ◌∷◌, map, reverse}
use leopold.Prelude.Tests.{ltb, leb, if◌then◌else◌}

abbrev pub Text : Type 0
Text = List ℕ

abbrev pub codes : String → Text
codes String.[] = []
codes (String.◌∷◌ c s) = code c ∷ codes s

-- `toLowerCase` on an ASCII letter; every other ASCII character stays.
unfoldable pub lower_char : ℕ → ℕ
lower_char c = if leb b'A' c && leb c b'Z' then c + 32 else c

unfoldable pub to_lower_case : Text → Text
unfolding lower_char
to_lower_case = map lower_char

-- Decimal digits, the last one first, on fuel.
unfoldable digits_from : ℕ → ℕ → Text
digits_from zero n = []
digits_from (suc fuel) n =
    let rest = digits_from fuel (n / 10) in (b'0' + n % 10) ∷ (if ltb n 10 then [] else rest)

-- `toString` of a natural number.
unfoldable pub decimal : ℕ → Text
unfolding digits_from
decimal n = reverse (digits_from (suc n) n)

-- Whether a code unit is one of those.
unfoldable pub has_code : ℕ → Text → Bool
has_code c [] = false
has_code c (d ∷ ds) = (leb c d && leb d c) || has_code c ds

-- White space of `trim` in the Latin block, and the byte order mark.
is_space : ℕ → Bool
is_space c = (leb 9 c && leb c 13) || has_code c (32 ∷ 160 ∷ 65279 ∷ [])

trim_start : Text → Text
unfolding is_space has_code
trim_start [] = []
trim_start (c ∷ cs) = let rest = trim_start cs in if is_space c then rest else c ∷ cs

unfoldable pub trim : Text → Text
unfolding trim_start
trim t = reverse (trim_start (reverse (trim_start t)))
