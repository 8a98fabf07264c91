-- ===== src/Value/Numeral.antt =====
-- `int(text)` and `float(text)` on an optional sign, digits, and for a float an optional fraction.
-- Blanks, underscores and exponents, which Python takes too, are not read.
use Prim.Native.Nat.{zero, suc}
use Prim.Native.Char.{code}
use Prim.Native.String.{[], ◌∷◌}
use mathlib.Core.Option
use bteng.Prelude.{
  ℕ, ◌+◌, ◌-◌, ◌*◌, ◌/◌, String, ℤ, pos, negsuc, Bool, Option, none, some, ◌&&◌, leb, ◌==◌,
  if◌then◌else◌,
}

abbrev is_digit : ℕ → Bool
is_digit c = leb b'0' c && leb c b'9'

digits : ℕ → String → Option ℕ
digits n [] = some n
digits n (c ∷ rest) =
    let more = digits (n * 10 + (code c - b'0')) rest in if is_digit (code c) then more else none

-- Digits behind the point, each worth a tenth of the one before it.
fraction : ℕ → ℕ → String → Option ℕ
fraction unit n [] = some n
fraction unit n (c ∷ rest) =
    let more = fraction (unit / 10) (n + unit * (code c - b'0')) rest in
    if is_digit (code c) then more else none

decimal : ℕ → String → Option ℕ
unfolding fraction
decimal n [] = some (n * 1000000000)
decimal n (c ∷ rest) =
    let more = decimal (n * 10 + (code c - b'0')) rest in
    let behind = fraction 100000000 (n * 1000000000) rest in
    if is_digit (code c) then more else if code c == b'.' then behind else none

negate : ℕ → ℤ
negate zero = pos 0
negate (suc n) = negsuc n

signed : (String → Option ℕ) → String → Option ℤ
unfolding negate
signed read [] = none
signed read (c ∷ []) = if is_digit (code c) then Option.map pos (read (c ∷ [])) else none
signed read (c ∷ rest) =
    if code c == b'-'
    then Option.map negate (read rest)
    else if code c == b'+'
    then Option.map pos (read rest)
    else Option.map pos (read (c ∷ rest))

unfoldable pub int_of_text : String → Option ℤ
unfolding signed digits
int_of_text = signed (digits 0)

unfoldable pub float_of_text : String → Option ℤ
unfolding signed decimal
float_of_text = signed (decimal 0)
