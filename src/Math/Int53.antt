-- ===== src/Math/Int53.antt =====
-- packages/math/src/integers.ts, classes Int53 and Uint53.
pub mod Strings
mod Tests
use cosmjs.Prelude.{
  ℕ, ◌≤◌, ◌-◌, ◌^◌, ◌==◌, Bool, true, false, not, List, [], ◌∷◌, arith, ltb, if◌then◌else◌, Text,
  is_digits, Result, ok, throws, ◌>>=◌, ◌>>◌, throw_if,
}
use cosmjs.Prelude.Int.{ℤ, pos, negsuc, pos_part, neg_part}
use cosmjs.Math.Number.{
  Number, nan, infinite, fraction, large, int, parse_int, negate, max_safe_integer, int_to_string,
}

pub record Int53 : Type 0 where
  pub value : ℤ

-- The constructor of Int53; the range is that of the safe integers, -(2^53 - 1) to 2^53 - 1.
unfoldable pub new_int53 : Number → Result Int53
new_int53 nan = throws "Input is not a number"
new_int53 infinite = throws "Input is not an integer"
new_int53 fraction = throws "Input is not an integer"
new_int53 (large negative) = throws "Input not in int53 range"
new_int53 (int z) =
    if ltb max_safe_integer (neg_part z)
    then throws "Input not in int53 range"
    else if ltb max_safe_integer (pos_part z)
    then throws "Input not in int53 range"
    else ok (record { value = z })

-- `/^-?[0-9]+$/`
unfoldable pub is_integer_text : Text → Bool
is_integer_text [] = false
is_integer_text (c ∷ s) = if c == b'-' then is_digits s else is_digits (c ∷ s)

-- `Number.parseInt(s, 10)` of digits behind an optional minus sign.
unfoldable pub parse_signed : Text → Number
parse_signed [] = nan
parse_signed (c ∷ s) = if c == b'-' then negate (parse_int s) else parse_int (c ∷ s)

unfoldable pub from_string : Text → Result Int53
from_string s = do
  throw_if (not (is_integer_text s)) "Invalid string format"
  new_int53 (parse_signed s)

unfoldable pub to_string : Int53 → Text
to_string i = int_to_string i.value

-- A Uint53 holds an Int53.
pub record Uint53 : Type 0 where
  pub signed : Int53

abbrev pub is_negative : ℤ → Bool
is_negative (pos n) = false
is_negative (negsuc n) = true

-- The constructor of Uint53.
unfoldable pub new_uint53 : Number → Result Uint53
unfolding new_int53
new_uint53 input = do
  signed ← new_int53 input
  throw_if (is_negative signed.value) "Input is negative"
  ok (record { signed = signed })

unfoldable pub uint53_from_string : Text → Result Uint53
unfolding from_string
uint53_from_string s = do signed ← from_string s; new_uint53 (int signed.value)

unfoldable pub uint53_to_string : Uint53 → Text
uint53_to_string u = to_string u.signed

-- `toNumber` of a Uint53.
abbrev pub to_number : Uint53 → ℤ
to_number u = u.signed.value

-- The Uint53 of a natural number.
abbrev pub uint53 : ℕ → Uint53
uint53 n = record { signed = record { value = pos n } }
