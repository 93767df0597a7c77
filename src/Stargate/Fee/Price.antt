-- ===== src/Stargate/Fee/Price.antt =====
-- Gas prices are read back from their text.

use cosmjs.Prelude.{
  ℕ, ◌-◌, ◌/◌, ◌%◌, ◌^◌, ◌≤◌, ◌≡◌, refl, ◌≢◌, inl, inr, true, false, ◌||◌, some, [], ◌∷◌, ◌++◌,
  arith, ltb, leb, ◌==◌, Bool-cases, length, replicate, all, All, All-append, ok, Text, IsDigit,
  to_decimal, to_decimal-IsDigit, to_decimal-ne-nil,
}
use cosmjs.Math.BigNumber.{BigNumber}
use cosmjs.Math.Decimal.{Decimal, to_string, dot, trim_zeros, pad_start}
use cosmjs.Math.Decimal.Arithmetic.{Is, rest_zero_lem, rest_lem, whole_lem}
use cosmjs.Math.Decimal.Digits.{IsDigit-zeros}
use cosmjs.Math.Decimal.Trim.{All-trim_zeros}
use cosmjs.Math.Decimal.RoundTrip.{from_user_input-to_string}
use cosmjs.Stargate.Fee.{
  check_denom, is_denom, is_amount_char, span_amount, match_gas_price, GasPrice,
  gas_price_from_string, gas_price_to_string,
}

digits_amount : (s : Text) → All IsDigit s → all is_amount_char s ≡ true
digits_amount [] h = refl
digits_amount (c ∷ s) (hc, h) =
    let e : is_amount_char c ≡ true = ground arith in rw (e, digits_amount s h)

all-append :
    (s t : Text)
    → all is_amount_char s ≡ true
    → all is_amount_char t ≡ true
    → all is_amount_char (s ++ t) ≡ true
all-append [] t h k = k
all-append (c ∷ s) t h k = ground (arith, all-append s t)

length-append-pos : (s t : Text) → s ≢ [] → leb 1 (length (s ++ t)) ≡ true
length-append-pos [] t h = absurd (h refl)
length-append-pos (c ∷ s) t h = ground arith

length-pos : (s : Text) → s ≢ [] → leb 1 (length s) ≡ true
length-pos [] h = absurd (h refl)
length-pos (c ∷ s) h = ground arith

-- A decimal prints as one or more digits and dots.
to_string-amount :
    (bn : BigNumber) (d : Decimal bn.BN) (m digits : ℕ)
    → Is bn d m digits
    → (all is_amount_char (to_string bn d) ≡ true) × (leb 1 (length (to_string bn d)) ≡ true)
unfolding to_string
to_string-amount bn d m digits h =
    let whole = to_decimal (m / 10 ^ digits) in
    let is_whole = digits_amount whole (to_decimal-IsDigit (m / 10 ^ digits)) in
    elim (Bool-cases (m % 10 ^ digits == 0)) [
      | inl z ↦
          rw (rest_zero_lem bn d m digits h, z, bn.print_lem _ _ (whole_lem bn d m digits h))
            (is_whole, length-pos whole (to_decimal-ne-nil (m / 10 ^ digits)))
      | inr nz ↦
          let rest = to_decimal (m % 10 ^ digits) in
          let padded = pad_start rest d.fractional_digits in
          let is_padded : All IsDigit padded =
            All-append IsDigit (replicate (d.fractional_digits - length rest) b'0') rest
              (IsDigit-zeros (d.fractional_digits - length rest))
              (to_decimal-IsDigit (m % 10 ^ digits)) in
          rw
            (
              rest_zero_lem bn d m digits h,
              nz,
              bn.print_lem _ _ (whole_lem bn d m digits h),
              bn.print_lem _ _ (rest_lem bn d m digits h),
            )
            (
              all-append whole (dot ∷ trim_zeros padded) is_whole
                  (digits_amount (trim_zeros padded) (All-trim_zeros padded is_padded)),
              length-append-pos whole (dot ∷ trim_zeros padded)
                  (to_decimal-ne-nil (m / 10 ^ digits)),
            )
    ]

-- The run of the amount ends where the denom begins.
span_amount_lem :
    (s denom : Text)
    → all is_amount_char s ≡ true
    → is_denom denom ≡ true
    → span_amount (s ++ denom) ≡ (s, denom)
unfolding span_amount
span_amount_lem [] [] h k = cc
span_amount_lem [] (c ∷ denom) h k =
    let letter : is_amount_char c ≡ false = ground arith in rw letter
span_amount_lem (c ∷ s) denom h k =
    let e : is_amount_char c ≡ true = ground arith in
    rw (e, span_amount_lem s denom (ground arith) k)

match_lem :
    (s denom : Text)
    → all is_amount_char s ≡ true
    → leb 1 (length s) ≡ true
    → is_denom denom ≡ true
    → match_gas_price (s ++ denom) ≡ some (s, denom)
unfolding match_gas_price
match_lem s denom h one k = rw (span_amount_lem s denom h k, one, k) refl

-- A gas price with 18 fractional digits and a denom of 3 to 128 of the allowed characters, a letter
-- first, is read back from its text: the same number and the same denom.
pub gas_price_from_string-to_string :
    (bn : BigNumber) (price : GasPrice bn.BN) (m : ℕ)
    → Is bn price.amount m 18
    → is_denom price.denom ≡ true
    → 3 ≤ length price.denom
    → length price.denom ≤ 128
    → (read : GasPrice bn.BN) × (gas_price_from_string bn (gas_price_to_string bn price) ≡ ok read)
      × Is bn read.amount m 18
      × (read.denom ≡ price.denom)
unfolding gas_price_from_string gas_price_to_string check_denom
gas_price_from_string-to_string bn price m h good least most =
    let (chars, one) = to_string-amount bn price.amount m 18 h in
    let (d, parsed, is_d) = from_user_input-to_string bn price.amount m 18 h (omega arith) in
    let sized : (ltb (length price.denom) 3 || ltb 128 (length price.denom)) ≡ false =
      ground arith in
    (
      record { amount = d; denom = price.denom },
      rw (match_lem (to_string bn price.amount) price.denom chars one good, sized, parsed) refl,
      is_d,
      refl,
    )
