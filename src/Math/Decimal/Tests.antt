-- ===== src/Math/Decimal/Tests.antt =====
-- Decimals at concrete numbers, over a concrete bn.js.
use cosmjs.Prelude.{
  ℕ, ◌+◌, ◌-◌, ◌*◌, ◌%◌, ◌^◌, ◌≤◌, ◌<◌, ◌≡◌, refl, arith, ltb, leb, ◌==◌, Result, ok, throws, codes,
  value_from, to_decimal,
}
use cosmjs.Prelude.Int.{ℤ, pos}
use cosmjs.Math.Number.{int}
use cosmjs.Math.BigNumber.{native}
use cosmjs.Math.Decimal.{
  Decimal, from_user_input, compare_decimals, floor, ceil, to_string, plus, minus, multiply, equals,
  is_less_than, is_less_than_or_equal, is_greater_than, is_greater_than_or_equal, trim_zeros,
  pad_end,
}
use cosmjs.Math.Decimal.Arithmetic.{
  Is, Returns, plus_lem, minus_lem, minus_negative, comparisons, digits_mismatch, multiply_lem,
  floor_lem, ceil_lem,
}
use cosmjs.Math.Decimal.Parse.{
  from_user_input_integer, from_user_input-dot, from_user_input_too_long,
}
use cosmjs.Math.Decimal.RoundTrip.{from_user_input-to_string}

-- 2.50 and 1.05, with two fractional digits.
abbrev d250 : Decimal ℤ
d250 = record { atomics = pos 250; fractional_digits = 2 }

abbrev d105 : Decimal ℤ
d105 = record { atomics = pos 105; fractional_digits = 2 }

abbrev Gives : Result (Decimal ℤ) → ℕ → ℕ → Type 0
Gives = Returns native

d250-Is : Is native d250 250 2
d250-Is = record { atomics = refl; digits_lem = refl }

d105-Is : Is native d105 105 2
d105-Is = record { atomics = refl; digits_lem = refl }

plus_lem_example : Gives (plus native d250 d105) (250 + 105) 2
plus_lem_example = plus_lem native d250 d105 250 105 2 d250-Is d105-Is

minus_lem_example : Gives (minus native d250 d105) (250 - 105) 2
minus_lem_example = minus_lem native d250 d105 250 105 2 d250-Is d105-Is (omega arith)

minus_negative_example : minus native d105 d250 ≡ throws "Difference must not be negative"
minus_negative_example = minus_negative native d105 d250 105 250 2 d105-Is d250-Is (omega arith)

comparisons_example :
    (equals native d250 d105 ≡ ok (250 == 105))
    × (is_less_than native d250 d105 ≡ ok (ltb 250 105))
    × (is_less_than_or_equal native d250 d105 ≡ ok (leb 250 105))
    × (is_greater_than native d250 d105 ≡ ok (ltb 105 250))
    × (is_greater_than_or_equal native d250 d105 ≡ ok (leb 105 250))
comparisons_example = comparisons native d250 d105 250 105 2 d250-Is d105-Is

abbrev d3 : Decimal ℤ
d3 = record { atomics = pos 3; fractional_digits = 0 }

digits_mismatch_example :
    (plus native d250 d3 ≡ throws "Fractional digits do not match")
    × (minus native d250 d3 ≡ throws "Fractional digits do not match")
    × (compare_decimals native d250 d3 ≡ throws "Fractional digits do not match")
digits_mismatch_example = digits_mismatch native d250 d3 (omega arith)

multiply_lem_example : Gives (multiply native d105 (to_decimal 4)) (105 * 4) 2
multiply_lem_example = multiply_lem native d105 105 2 4 d105-Is

floor_lem_example :
    (n : ℕ) × Gives (floor native d250) n 2 × (n % 10 ^ 2 ≡ 0) × (n ≤ 250) × (250 < n + 10 ^ 2)
floor_lem_example = floor_lem native d250 250 2 d250-Is (omega arith)

ceil_lem_example :
    (n : ℕ) × Gives (ceil native d250) n 2 × (n % 10 ^ 2 ≡ 0) × (250 ≤ n) × (n < 250 + 10 ^ 2)
ceil_lem_example = ceil_lem native d250 250 2 d250-Is (omega arith)

from_user_input_integer_example :
    Gives
      (from_user_input native (codes "0042") (int (pos 3)))
      (value_from 0 (codes "0042") * 10 ^ 3)
      3
from_user_input_integer_example =
    from_user_input_integer native (codes "0042") 3 (omega arith) (omega arith)

from_user_input-dot_example :
    Gives
      (from_user_input native (codes "42.6500") (int (pos 3)))
      (value_from 0 (codes "42") * 10 ^ 3 + value_from 0 (pad_end (trim_zeros (codes "6500")) 3))
      3
from_user_input-dot_example =
    from_user_input-dot native (codes "42") b'6' (codes "500") 3 (omega arith) (omega arith)
      (omega arith) (unfold trim_zeros in omega arith) (unfold trim_zeros in ground arith)

from_user_input_too_long_example :
    from_user_input native (codes "1.2345") (int (pos 3))
    ≡ throws "Got more fractional digits than supported"
from_user_input_too_long_example =
    from_user_input_too_long native (codes "1") b'2' (codes "345") 3 (omega arith) (omega arith)
      (omega arith) (unfold trim_zeros in omega arith)

from_user_input-to_string_example :
    Gives (from_user_input native (to_string native d250) (int (pos 2))) 250 2
from_user_input-to_string_example =
    from_user_input-to_string native d250 250 2 d250-Is (omega arith)
