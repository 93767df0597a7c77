-- ===== src/Math/Decimal.antt =====
-- packages/math/src/decimal.ts, over bn.js as a parameter.
pub mod Digits
pub mod Trim
pub mod Arithmetic
pub mod Parse
pub mod RoundTrip
mod Tests
use Prim.Native.Nat.{Ordering}
use cosmjs.Prelude.{
  ℕ, ◌+◌, ◌-◌, Bool, true, false, not, ◌||◌, List, [], ◌∷◌, ◌++◌, ltb, ◌==◌, if◌then◌else◌, length,
  replicate, all, Result, ◌>>=◌, ◌>>◌, throw_if, ok, throws, Text, is_digit, is_digits, split,
}
use cosmjs.Prelude.Int.{ℤ, pos, negsuc}
use cosmjs.Math.Number.{Number, nan, infinite, fraction, large, int}
use cosmjs.Math.BigNumber.{BigNumber}

abbrev pub max_fractional_digits : ℕ
max_fractional_digits = 100

-- `data` of the class.
pub record Decimal (B : Type 0) : Type 0 where
  pub atomics : B
  pub fractional_digits : ℕ

-- `verifyFractionalDigits`; the result is the number that passed.
unfoldable pub verify_fractional_digits : Number → Result ℕ
verify_fractional_digits nan = throws "Fractional digits is not an integer"
verify_fractional_digits infinite = throws "Fractional digits is not an integer"
verify_fractional_digits fraction = throws "Fractional digits is not an integer"
verify_fractional_digits (large true) = throws "Fractional digits must not be negative"
verify_fractional_digits (large false) = throws "Fractional digits must not exceed 100"
verify_fractional_digits (int (negsuc n)) = throws "Fractional digits must not be negative"
verify_fractional_digits (int (pos n)) =
    if ltb max_fractional_digits n then throws "Fractional digits must not exceed 100" else ok n

abbrev pub dot : ℕ
dot = b'.'

-- `/[^0-9.]/` finds nothing.
unfoldable pub has_good_characters : Text → Bool
has_good_characters s = all (λ c. is_digit c || c == dot) s

abbrev pub trim_step : ℕ → Text → Text
trim_step c [] = if c == b'0' then [] else c ∷ []
trim_step c (d ∷ s) = c ∷ d ∷ s

-- `s.replace(/0+$/, "")`
unfoldable pub trim_zeros : Text → Text
trim_zeros [] = []
trim_zeros (c ∷ s) = trim_step c (trim_zeros s)

-- `s.padEnd(n, "0")` and `s.padStart(n, "0")`
abbrev pub pad_end : Text → ℕ → Text
pad_end s n = s ++ replicate (n - length s) b'0'

abbrev pub pad_start : Text → ℕ → Text
pad_start s n = replicate (n - length s) b'0' ++ s

-- The `switch` on the parts of the split: the whole and the fractional part.
unfoldable pub whole_and_fractional : List Text → Result (Text × Text)
whole_and_fractional (whole ∷ [] ∷ []) = throws "Fractional part missing"
whole_and_fractional (whole ∷ (c ∷ f) ∷ []) = ok (whole, trim_zeros (c ∷ f))
whole_and_fractional (whole ∷ f ∷ more ∷ rest) = throws "More than one separator found"
whole_and_fractional other =
    throws "Fewer than two elements in split result. This must not happen here."

-- The three formats of the input.
unfoldable pub split_input : Text → Result (Text × Text)
unfolding whole_and_fractional
split_input [] = ok (b'0' ∷ [], [])
split_input (c ∷ s) =
    if all (λ x. not (x == dot)) (c ∷ s)
    then ok (c ∷ s, [])
    else whole_and_fractional (split dot (c ∷ s))

module _ (bn : BigNumber) where
  open bn use {
    BN, of_digits, of_int, print, add, sub, mul, div, mod_of, pow, addn, cmp, is_zero, is_neg,
  }

  -- The private constructor.
  unfoldable pub new_decimal : Text → ℕ → Result (Decimal BN)
  new_decimal atomics digits = do
    throw_if (not (is_digits atomics))
        "Invalid string format. Only non-negative integers in decimal representation supported."
    ok (record { atomics = of_digits atomics; fractional_digits = digits })

  unfoldable pub from_user_input : Text → Number → Result (Decimal BN)
  from_user_input input fractional_digits = do
    digits ← verify_fractional_digits fractional_digits
    throw_if (not (has_good_characters input)) "Invalid character"
    (whole, fractional) ← split_input input
    throw_if (ltb digits (length fractional)) "Got more fractional digits than supported"
    new_decimal (whole ++ pad_end fractional digits) digits

  unfoldable pub from_atomics : Text → Number → Result (Decimal BN)
  from_atomics atomics fractional_digits = do
    digits ← verify_fractional_digits fractional_digits
    new_decimal atomics digits

  -- `zero` and `one`.
  unfoldable pub decimal_zero : Number → Result (Decimal BN)
  decimal_zero fractional_digits = do
    digits ← verify_fractional_digits fractional_digits
    new_decimal (b'0' ∷ []) digits

  unfoldable pub decimal_one : Number → Result (Decimal BN)
  decimal_one fractional_digits = do
    digits ← verify_fractional_digits fractional_digits
    new_decimal (b'1' ∷ replicate digits b'0') digits

  -- The getter `atomics`, a text.
  abbrev pub atomics_text : Decimal BN → Text
  atomics_text d = print d.atomics

  -- `compare`, as the sign of its result.
  unfoldable pub compare_decimals : Decimal BN → Decimal BN → Result Ordering
  compare_decimals a b = do
    throw_if (not (a.fractional_digits == b.fractional_digits)) "Fractional digits do not match"
    ok (cmp a.atomics (of_digits (atomics_text b)))

  abbrev factor : Decimal BN → BN
  factor d = pow (of_int (pos 10)) (of_int (pos d.fractional_digits))

  clone : Decimal BN → Result (Decimal BN)
  clone d = new_decimal (atomics_text d) d.fractional_digits

  unfoldable pub floor : Decimal BN → Result (Decimal BN)
  unfolding clone
  floor d =
      if is_zero (mod_of d.atomics (factor d))
      then clone d
      else from_atomics (print (mul (div d.atomics (factor d)) (factor d)))
          (int (pos d.fractional_digits))

  unfoldable pub ceil : Decimal BN → Result (Decimal BN)
  unfolding clone
  ceil d =
      if is_zero (mod_of d.atomics (factor d))
      then clone d
      else from_atomics (print (mul (addn (div d.atomics (factor d)) 1) (factor d)))
          (int (pos d.fractional_digits))

  unfoldable pub to_string : Decimal BN → Text
  to_string d =
      let whole = div d.atomics (factor d) in
      let fractional = mod_of d.atomics (factor d) in
      if is_zero fractional
      then print whole
      else print whole ++ dot ∷ trim_zeros (pad_start (print fractional) d.fractional_digits)

  unfoldable pub plus : Decimal BN → Decimal BN → Result (Decimal BN)
  plus a b = do
    throw_if (not (a.fractional_digits == b.fractional_digits)) "Fractional digits do not match"
    new_decimal (print (add a.atomics (of_digits (atomics_text b)))) a.fractional_digits

  unfoldable pub minus : Decimal BN → Decimal BN → Result (Decimal BN)
  minus a b = do
    throw_if (not (a.fractional_digits == b.fractional_digits)) "Fractional digits do not match"
    let difference = sub a.atomics (of_digits (atomics_text b))
    throw_if (is_neg difference) "Difference must not be negative"
    new_decimal (print difference) a.fractional_digits

  -- `b` is the text of an unsigned integer of one of the three classes.
  unfoldable pub multiply : Decimal BN → Text → Result (Decimal BN)
  multiply a b = new_decimal (print (mul a.atomics (of_digits b))) a.fractional_digits

  abbrev pub on_sign : (Ordering → Bool) → Decimal BN → Decimal BN → Result Bool
  on_sign test a b = do sign ← compare_decimals a b; ok (test sign)

  unfoldable pub equals : Decimal BN → Decimal BN → Result Bool
  equals = on_sign (elim [ Ordering.eq ↦ true | _ ↦ false ])

  unfoldable pub is_less_than : Decimal BN → Decimal BN → Result Bool
  is_less_than = on_sign (elim [ Ordering.lt ↦ true | _ ↦ false ])

  unfoldable pub is_less_than_or_equal : Decimal BN → Decimal BN → Result Bool
  is_less_than_or_equal = on_sign (elim [ Ordering.gt ↦ false | _ ↦ true ])

  unfoldable pub is_greater_than : Decimal BN → Decimal BN → Result Bool
  is_greater_than = on_sign (elim [ Ordering.gt ↦ true | _ ↦ false ])

  unfoldable pub is_greater_than_or_equal : Decimal BN → Decimal BN → Result Bool
  is_greater_than_or_equal = on_sign (elim [ Ordering.lt ↦ false | _ ↦ true ])
