-- ===== src/Math/Number.antt =====
-- A JavaScript number as far as the code tells numbers apart. An integer in the safe range is
-- exact; -0 is 0, which prints alike and compares alike.

use cosmjs.Prelude.{
  ℕ, ◌-◌, ◌^◌, ◌≤◌, ◌<◌, ◌≡◌, Bool, true, false, arith, ltb, if◌then◌else◌, Text, value_from,
  to_decimal, ◌∷◌,
}
use cosmjs.Prelude.Int.{ℤ, pos, negsuc}

pub data Number : Type 0 where
  -- NaN, the infinities, and the doubles that are no integers
  nan infinite fraction : Number
  -- an integer beyond the safe range; `true` if it is negative
  large : Bool → Number
  int : ℤ → Number

-- Number.MAX_SAFE_INTEGER
abbrev pub max_safe_integer : ℕ
max_safe_integer = 2 ^ 53 - 1

-- The number nearest to a natural number: from 2^53 on it is no safe integer, and half way
-- beyond the greatest double it is infinite.
unfoldable pub number_of : ℕ → Number
number_of n =
    if ltb max_safe_integer n
    then if ltb n (2 ^ 1024 - 2 ^ 970) then large false else infinite
    else int (pos n)

unfoldable pub negate : Number → Number
negate (large b) = large (if b then false else true)
negate (int (pos ℕ.zero)) = int (pos 0)
negate (int (pos (ℕ.suc n))) = int (negsuc n)
negate (int (negsuc n)) = int (pos (ℕ.suc n))
negate x = x

-- `Number.parseInt(s, 10)` of decimal digits.
unfoldable pub parse_int : Text → Number
parse_int s = number_of (value_from 0 s)

-- `toString` of an integer in the safe range.
unfoldable pub int_to_string : ℤ → Text
int_to_string (pos n) = to_decimal n
int_to_string (negsuc n) = b'-' ∷ to_decimal (ℕ.suc n)

pub number_of_safe : (n : ℕ) → n ≤ max_safe_integer → number_of n ≡ int (pos n)
unfolding number_of
number_of_safe n h = ground arith

pub number_of_unsafe : (n : ℕ) → max_safe_integer < n → (number_of n ≡ int (pos n)) → ⊥
unfolding number_of
number_of_unsafe n h e = ground arith
