-- ===== src/Common/Text.antt =====
-- `std::string` operations: bytes, ASCII `tolower`, `find` and `rfind`, `std::to_string`.
use Prim.Native.Nat.{ℕ, zero, suc, ◌+◌, ◌/◌, ◌%◌}
use Prim.Native.Char.{code}
use Prim.Native.String.{String, ◌++◌}
use mathlib.Core.Option.{none, some}
use mathlib.Core.Bool.{Bool, true, false, ◌&&◌, ◌||◌}
use mathlib.Core.List.{List, [], ◌∷◌, map}
use mathlib.Core.Path.{◌≡◌, refl, ap₂}
use native.Mathlib.Omega.{arith}
use disping.Common.Lists.{get_elem?}
use disping.Common.Tests.{leb, ◌==◌, if◌then◌else◌}

-- The code points of a text, which are its bytes where it is ASCII.
abbrev pub codes : String → List ℕ
codes String.[] = []
codes (String.◌∷◌ c s) = code c ∷ codes s

-- `::tolower` in the "C" locale.
unfoldable pub to_lower : ℕ → ℕ
to_lower c = if leb b'A' c && leb c b'Z' then c + 32 else c

unfoldable pub lower : List ℕ → List ℕ
unfolding to_lower
lower s = map to_lower s

-- `a == b` on strings.
unfoldable pub same : List ℕ → List ℕ → Bool
same [] [] = true
same [] (y ∷ ys) = false
same (x ∷ xs) [] = false
same (x ∷ xs) (y ∷ ys) = x == y && same xs ys

pub same-eq : (xs ys : List ℕ) → same xs ys ≡ true → xs ≡ ys
unfolding same
same-eq [] [] h = refl
same-eq [] (y ∷ ys) h = cc
same-eq (x ∷ xs) [] h = cc
same-eq (x ∷ xs) (y ∷ ys) h = ap₂ ◌∷◌ (ground arith) (same-eq xs ys (ground arith))

pub same_refl : (xs : List ℕ) → same xs xs ≡ true
unfolding same
same_refl [] = refl
same_refl (x ∷ xs) = ground (arith, same_refl xs)

-- `s.rfind(prefix, 0) == 0`, and also `s.find(prefix) == 0`.
unfoldable pub has_prefix : List ℕ → List ℕ → Bool
has_prefix [] s = true
has_prefix (p ∷ ps) [] = false
has_prefix (p ∷ ps) (c ∷ s) = p == c && has_prefix ps s

-- `s.find(needle) != npos`.
unfoldable pub contains : List ℕ → List ℕ → Bool
unfolding has_prefix
contains needle [] = has_prefix needle []
contains needle (c ∷ s) = has_prefix needle (c ∷ s) || contains needle s

digit : ℕ → String
digit d =
    if d == 0
    then "0"
    else if d == 1
    then "1"
    else if d == 2
    then "2"
    else if d == 3
    then "3"
    else if d == 4
    then "4"
    else if d == 5
    then "5"
    else if d == 6
    then "6"
    else if d == 7
    then "7"
    else if d == 8
    then "8"
    else "9"

decimal : ℕ → ℕ → String
unfolding digit
decimal zero n = digit (n % 10)
decimal (suc fuel) n =
    let rest = decimal fuel (n / 10) in if leb n 9 then digit n else rest ++ digit (n % 10)

-- `std::to_string` of an unsigned number: twenty digits hold every 64-bit value.
unfoldable pub to_string : ℕ → String
unfolding decimal
to_string n = decimal 19 n

hex_digits : List String
hex_digits =
    "0" ∷ "1" ∷ "2" ∷ "3" ∷ "4" ∷ "5" ∷ "6" ∷ "7" ∷ "8" ∷ "9" ∷ "A" ∷ "B" ∷ "C" ∷ "D" ∷ "E" ∷ "F"
    ∷ []

hex_digit : ℕ → String
unfolding hex_digits
hex_digit d = elim (get_elem? hex_digits d) [ none ↦ "" | some s ↦ s ]

-- A byte as two capital hexadecimal digits.
unfoldable pub two_hex : ℕ → String
unfolding hex_digit
two_hex b = hex_digit (b / 16 % 16) ++ hex_digit (b % 16)
