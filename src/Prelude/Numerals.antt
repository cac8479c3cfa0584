-- ===== src/Prelude/Numerals.antt =====
-- Python's `int` of a text, for ASCII texts.
use Prim.Native.Nat.{ℕ, ◌+◌, ◌-◌, ◌*◌}
use Prim.Native.Char.{code}
use Prim.Native.String.{String}
use mathlib.Core.Bool.{Bool, true, false, ◌&&◌}
use mathlib.Core.Option.{Option, none, some}
use tetra_host.Prelude.Tests.{eqb, if◌then◌else◌}
use tetra_host.Prelude.Text.{strip, is_digit_char}

-- a Python integer
pub data Number : Type 0 where
  natural : ℕ → Number
  -- the negative of the number
  minus : ℕ → Number

-- digits in groups that a single "_" separates, with the value so far and whether a digit came last
unfoldable pub digits_value : ℕ → Bool → String → Option ℕ
unfolding is_digit_char
digits_value value after_digit String.[] = if after_digit then some value else none
digits_value value after_digit (String.◌∷◌ c s) =
    let with_digit = digits_value (value * 10 + (code c - 48)) true s in
    let with_gap = digits_value value false s in
    if is_digit_char c
    then with_digit
    else if eqb (code c) 95 && after_digit
    then with_gap
    else none

signed : (ℕ → Number) → Option ℕ → Option Number
signed sign none = none
signed sign (some n) = some (sign n)

unsigned : String → Option Number
unfolding signed digits_value
unsigned String.[] = none
unsigned (String.◌∷◌ c s) =
    if eqb (code c) 45
    then signed minus (digits_value 0 false s)
    else if eqb (code c) 43
    then signed natural (digits_value 0 false s)
    else signed natural (digits_value 0 false (String.◌∷◌ c s))

-- int(s), of ASCII texts; nothing where it raises a ValueError
unfoldable pub int_of : String → Option Number
unfolding unsigned
int_of s = unsigned (strip s)
