-- ===== src/Stargate/BigInt.antt =====
-- `BigInt(text)` and `toString` of a bigint, as packages/stargate/src/modules uses them for integers.
mod Tests
use cosmjs.Prelude.{
  ℕ, zero, suc, ◌+◌, ◌-◌, ◌*◌, ◌≡◌, refl, true, false, ◌&&◌, ◌||◌, Option, none, some, [], ◌∷◌,
  arith, ltb, leb, ◌==◌, if◌then◌else◌, length, all, All, Result, ok, throws, Text, is_digit,
  is_digits, IsDigit, value_from, to_decimal, value-to_decimal, to_decimal-IsDigit,
  is_digits-to_decimal,
}
use cosmjs.Prelude.Int.{ℤ, pos, negsuc}
use cosmjs.Math.Number.{int_to_string}
use cosmjs.Amino.Coins.{is_space}

-- White space is dropped at both ends.
unfoldable pub trim_start : Text → Text
trim_start [] = []
trim_start (c ∷ s) = if is_space c then trim_start s else c ∷ s

abbrev pub trim_end_step : ℕ → Text → Text
trim_end_step c [] = if is_space c then [] else c ∷ []
trim_end_step c (d ∷ s) = c ∷ d ∷ s

unfoldable pub trim_end : Text → Text
trim_end [] = []
trim_end (c ∷ s) = trim_end_step c (trim_end s)

-- `0x`, `0o` and `0b`
abbrev pub radix_of : ℕ → Option ℕ
radix_of c =
    if c == b'x' || c == b'X'
    then some 16
    else if c == b'o' || c == b'O'
    then some 8
    else if c == b'b' || c == b'B'
    then some 2
    else none

abbrev pub with_radix : Option ℕ → Text → Option (ℕ × Text)
with_radix none s = none
with_radix (some r) s = some (r, s)

abbrev pub prefixed : Text → Option (ℕ × Text)
prefixed [] = none
prefixed (z ∷ []) = none
prefixed (z ∷ c ∷ s) = if z == b'0' then with_radix (radix_of c) s else none

-- A character that is no digit has no value below any radix.
abbrev pub digit_value : ℕ → ℕ
digit_value c =
    if is_digit c
    then c - b'0'
    else if leb b'a' c && leb c b'z'
    then c - b'a' + 10
    else if leb b'A' c && leb c b'Z'
    then c - b'A' + 10
    else 36

unfoldable pub radix_value : ℕ → ℕ → Text → ℕ
radix_value r acc [] = acc
radix_value r acc (c ∷ s) = radix_value r (acc * r + digit_value c) s

abbrev pub negated : ℕ → ℤ
negated zero = pos 0
negated (suc n) = negsuc n

abbrev pub read_signed : Text → Result ℤ
read_signed [] = ok (pos 0)
read_signed (c ∷ s) =
    if c == b'-' && is_digits s
    then ok (negated (value_from 0 s))
    else if c == b'+' && is_digits s
    then ok (pos (value_from 0 s))
    else if is_digits (c ∷ s)
    then ok (pos (value_from 0 (c ∷ s)))
    else throws "Cannot convert to a BigInt"

abbrev pub read_prefixed : Option (ℕ × Text) → Text → Result ℤ
read_prefixed none s = read_signed s
read_prefixed (some (r, d)) s =
    if leb 1 (length d) && all (λ c. ltb (digit_value c) r) d
    then ok (pos (radix_value r 0 d))
    else throws "Cannot convert to a BigInt"

unfoldable pub big_int : Text → Result ℤ
big_int s = let t = trim_end (trim_start s) in read_prefixed (prefixed t) t

-- Text without white space stays.
trim_start_none : (s : Text) → All (λ c. is_space c ≡ false) s → trim_start s ≡ s
unfolding trim_start
trim_start_none [] h = refl
trim_start_none (c ∷ s) (hc, h) = rw hc refl

trim_end_none : (s : Text) → All (λ c. is_space c ≡ false) s → trim_end s ≡ s
unfolding trim_end
trim_end_none [] h = refl
trim_end_none (c ∷ []) (hc, h) = rw hc refl
trim_end_none (c ∷ d ∷ s) (hc, h) = rw (trim_end_none (d ∷ s) h) refl

digits_no_space : (s : Text) → All IsDigit s → All (λ c. is_space c ≡ false) s
digits_no_space [] h = tt
digits_no_space (c ∷ s) (hc, h) = (unfold is_space in ground arith, digits_no_space s h)

digits_not_prefixed : (s : Text) → All IsDigit s → prefixed s ≡ none
digits_not_prefixed [] h = refl
digits_not_prefixed (z ∷ []) h = refl
digits_not_prefixed (z ∷ c ∷ s) (hz, (hc, h)) = ground arith

read_digits : (s : Text) → is_digits s ≡ true → read_signed s ≡ ok (pos (value_from 0 s))
read_digits [] h = cc
read_digits (c ∷ s) h =
    let no_minus : (c == b'-') ≡ false = ground arith in
    let no_plus : (c == b'+') ≡ false = ground arith in rw (no_minus, no_plus, h) refl

negative_not_prefixed : (s : Text) → prefixed (b'-' ∷ s) ≡ none
negative_not_prefixed [] = refl
negative_not_prefixed (c ∷ s) = refl

-- Every integer is read back from its text.
pub big_int-int_to_string : (z : ℤ) → big_int (int_to_string z) ≡ ok z
unfolding big_int int_to_string
big_int-int_to_string (pos n) =
    let h = digits_no_space (to_decimal n) (to_decimal-IsDigit n) in
    rw
      (
        trim_start_none (to_decimal n) h,
        trim_end_none (to_decimal n) h,
        digits_not_prefixed (to_decimal n) (to_decimal-IsDigit n),
        read_digits (to_decimal n) (is_digits-to_decimal n),
        value-to_decimal n,
      )
      refl
big_int-int_to_string (negsuc n) =
    let s = to_decimal (suc n) in
    let h : All (λ c. is_space c ≡ false) (b'-' ∷ s) =
      (unfold is_space in refl, digits_no_space s (to_decimal-IsDigit (suc n))) in
    rw
      (
        trim_start_none (b'-' ∷ s) h,
        trim_end_none (b'-' ∷ s) h,
        negative_not_prefixed s,
        is_digits-to_decimal (suc n),
        value-to_decimal (suc n),
      )
      refl
