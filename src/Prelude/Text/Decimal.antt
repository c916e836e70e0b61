-- ===== src/Prelude/Text/Decimal.antt =====
-- Decimal numbers as text: they can be read back, and are digits only.
use Prim.Native.Nat.{ℕ, zero, suc, ◌+◌, ◌-◌, ◌*◌, ◌/◌, ◌<◌}
use mathlib.Core.Path.{◌≡◌, refl, sym, ap, ◌∙◌}
use mathlib.Core.Logic.{◌≢◌}
use mathlib.Core.Bool.{Bool, true, false}
use mathlib.Core.List.{[], ◌∷◌, ◌++◌, reverse, reverse_aux, reverse-reverse}
use native.Mathlib.Omega.{arith}
use leopold.Prelude.Tests.{ltb, if◌then◌else◌}
use leopold.Prelude.Text.{Text, lower_char, to_lower_case, digits_from, decimal}

-- The number of digits with the last one first.
value : Text → ℕ
value [] = 0
value (d ∷ ds) = d - b'0' + 10 * value ds

value-digits_from : (fuel n : ℕ) → n < fuel → value (digits_from fuel n) ≡ n
unfolding value digits_from
value-digits_from zero n h = absurd (omega arith)
value-digits_from (suc fuel) n h = ground (arith, value-digits_from fuel (n / 10))

pub decimal_injective : (m n : ℕ) → decimal m ≡ decimal n → m ≡ n
unfolding decimal
decimal_injective m n h =
    let same : digits_from (suc m) m ≡ digits_from (suc n) n =
      sym (reverse-reverse (digits_from (suc m) m))
      ∙ ap reverse h
      ∙ reverse-reverse (digits_from (suc n) n) in
    sym (value-digits_from (suc m) m (omega arith))
    ∙ ap value same
    ∙ value-digits_from (suc n) n (omega arith)

-- A text without a colon.
abbrev pub NoColon : Text → Type 0
NoColon [] = Unit {0}
NoColon (c ∷ cs) = (c ≢ b':') × NoColon cs

if-NoColon : (b : Bool) (t : Text) → NoColon t → NoColon (if b then [] else t)
if-NoColon true t h = tt
if-NoColon false t h = h

digits_from-NoColon : (fuel n : ℕ) → NoColon (digits_from fuel n)
unfolding digits_from
digits_from-NoColon zero n = tt
digits_from-NoColon (suc fuel) n =
    (λ e. omega arith, if-NoColon (ltb n 10) _ (digits_from-NoColon fuel (n / 10)))

reverse_aux-NoColon : (l r : Text) → NoColon l → NoColon r → NoColon (reverse_aux l r)
reverse_aux-NoColon [] r h k = k
reverse_aux-NoColon (c ∷ l) r h k = reverse_aux-NoColon l (c ∷ r) h.1 (h.0, k)

pub decimal-NoColon : (n : ℕ) → NoColon (decimal n)
unfolding decimal
decimal-NoColon n =
    reverse_aux-NoColon (digits_from (suc n) n) [] (digits_from-NoColon (suc n) n) tt

lower_char_lem : (c : ℕ) → c ≢ b':' → lower_char c ≢ b':'
unfolding lower_char
lower_char_lem c h e = ground arith

pub to_lower_case-NoColon : (t : Text) → NoColon t → NoColon (to_lower_case t)
unfolding to_lower_case
to_lower_case-NoColon [] h = tt
to_lower_case-NoColon (c ∷ t) h = (lower_char_lem c h.0, to_lower_case-NoColon t h.1)

-- A text is cut at its first colon in one way only.
pub split_at_colon :
    (a b x y : Text) → NoColon a → NoColon b → a ++ (b':' ∷ x) ≡ b ++ (b':' ∷ y) → (a ≡ b) × (x ≡ y)
split_at_colon [] [] x y h k e = (refl, ground arith)
split_at_colon [] (c ∷ b) x y h k e = absurd (k.0 (ground arith))
split_at_colon (c ∷ a) [] x y h k e = absurd (h.0 (ground arith))
split_at_colon (c ∷ a) (d ∷ b) x y h k e =
    let (same, rest) = split_at_colon a b x y h.1 k.1 (ground arith) in (ground arith, rest)
