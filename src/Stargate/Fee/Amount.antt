-- ===== src/Stargate/Fee/Amount.antt =====
-- The fee is the price of the gas, rounded up.
use native.Mathlib.Nat.{div-add-mod'}
use cosmjs.Prelude.{
  ℕ, ◌+◌, ◌*◌, ◌/◌, ◌%◌, ◌^◌, ◌≤◌, ◌<◌, ◌≡◌, refl, true, none, [], ◌∷◌, arith, ◌==◌, ok, Text,
  to_decimal, is_digits-to_decimal, or_zero-drop_zeros,
}
use cosmjs.Prelude.Int.{pos}
use cosmjs.Math.Number.{int, max_safe_integer, int_to_string}
use cosmjs.Math.Int53.{new_uint53, uint53, uint53_to_string, to_string as int53_to_string}
use cosmjs.Math.Int53.Strings.{new_int53_safe}
use cosmjs.Math.BigNumber.{BigNumber}
use cosmjs.Math.Decimal.{Decimal, max_fractional_digits, to_string, multiply, ceil}
use cosmjs.Math.Decimal.Arithmetic.{Is, multiply_lem, ceil_lem, rest_zero_lem, whole_lem}
use cosmjs.Amino.Coins.{coin, coins, as_text}
use cosmjs.Stargate.Fee.{GasPrice, calculate_fee, as_price}

-- A whole decimal prints as its number.
pub to_string_whole :
    (bn : BigNumber) (d : Decimal bn.BN) (n digits : ℕ)
    → Is bn d n digits
    → n % 10 ^ digits ≡ 0
    → to_string bn d ≡ to_decimal (n / 10 ^ digits)
unfolding to_string
to_string_whole bn d n digits h e =
    let z : (n % 10 ^ digits == 0) ≡ true = ground arith in
    rw (rest_zero_lem bn d n digits h, z) (bn.print_lem _ _ (whole_lem bn d n digits h))

coins-to_decimal :
    (n : ℕ) (denom : Text)
    → coins (as_text (to_decimal n)) denom
      ≡ ok (record { denom = denom; amount = to_decimal n } ∷ [])
unfolding coins coin
coins-to_decimal n denom = rw (is_digits-to_decimal n, or_zero-drop_zeros n) refl

new_uint53_natural : (n : ℕ) → n ≤ max_safe_integer → new_uint53 (int (pos n)) ≡ ok (uint53 n)
unfolding new_uint53
new_uint53_natural n h = rw (new_int53_safe (pos n) (h, omega arith)) refl

uint53-text : (n : ℕ) → uint53_to_string (uint53 n) ≡ to_decimal n
unfolding uint53_to_string int53_to_string
uint53-text n = unfold int_to_string in refl

-- The steps of `calculateFee` behind the two numbers.
fee_lem :
    (bn : BigNumber) (price : GasPrice bn.BN) (m g digits q : ℕ) (product rounded : Decimal bn.BN)
    → g ≤ max_safe_integer
    → multiply bn price.amount (to_decimal g) ≡ ok product
    → ceil bn product ≡ ok rounded
    → Is bn rounded q digits
    → q % 10 ^ digits ≡ 0
    → calculate_fee bn (int (pos g)) (as_price price)
      ≡ ok (record {
        amount = record { denom = price.denom; amount = to_decimal (q / 10 ^ digits) } ∷ [];
        gas = to_decimal g;
        granter = none;
        payer = none;
      })
unfolding calculate_fee
fee_lem bn price m g digits q product rounded safe multiplied up is_rounded whole =
    rw
      (
        new_uint53_natural g safe,
        uint53-text g,
        multiplied,
        up,
        to_string_whole bn rounded q digits is_rounded whole,
        coins-to_decimal (q / 10 ^ digits) price.denom,
      )
      refl

-- For a gas limit that is a safe natural number and a price with up to 100 fractional digits, the
-- fee is one coin of the price's denom, whose amount is the least whole number not below price
-- times gas.
pub calculate_fee_lem :
    (bn : BigNumber) (price : GasPrice bn.BN) (m g digits : ℕ)
    → Is bn price.amount m digits
    → digits ≤ max_fractional_digits
    → g ≤ max_safe_integer
    → (fee : ℕ) × (calculate_fee bn (int (pos g)) (as_price price)
        ≡ ok (record {
          amount = record { denom = price.denom; amount = to_decimal fee } ∷ [];
          gas = to_decimal g;
          granter = none;
          payer = none;
        }))
      × (m * g ≤ fee * 10 ^ digits)
      × (fee * 10 ^ digits < m * g + 10 ^ digits)
calculate_fee_lem bn price m g digits h fits safe =
    let (product, multiplied, is_product) = multiply_lem bn price.amount m digits g h in
    let (q, (rounded, up, is_rounded), whole, above, below) =
      ceil_lem bn product (m * g) digits is_product fits in
    let exact : q / 10 ^ digits * 10 ^ digits ≡ q =
      omega (arith, div-add-mod' q (10 ^ digits), whole) in
    (
      q / 10 ^ digits,
      fee_lem bn price m g digits q product rounded safe multiplied up is_rounded whole,
      rw exact above,
      rw exact below,
    )
