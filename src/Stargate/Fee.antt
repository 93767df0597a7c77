-- ===== src/Stargate/Fee.antt =====
-- packages/stargate/src/fee.ts, over bn.js as a parameter.
pub mod Price
pub mod Amount
mod Tests
use cosmjs.Prelude.{
  ℕ, ◌+◌, ◌-◌, ◌/◌, Bool, false, ◌&&◌, ◌||◌, Option, none, some, [], ◌∷◌, ◌++◌, ltb, leb, ◌==◌,
  if◌then◌else◌, length, all, Result, ◌>>=◌, ◌>>◌, ok, throws, Text, is_digit,
}
use cosmjs.Prelude.Int.{pos}
use cosmjs.Math.Number.{Number, int}
use cosmjs.Math.Int53.{Uint53, new_uint53, uint53_to_string}
use cosmjs.Math.BigNumber.{BigNumber}
use cosmjs.Math.Decimal.{Decimal, from_user_input, to_string, multiply, ceil}
use cosmjs.Amino.SignDoc.{StdFee}
use cosmjs.Amino.Coins.{Coin, coins, as_text}

unfoldable pub check_denom : Text → Result Text
check_denom denom =
    if ltb (length denom) 3 || ltb 128 (length denom)
    then throws "Denom must be between 3 and 128 characters"
    else ok denom

-- `[a-zA-Z]`
abbrev pub is_letter : ℕ → Bool
is_letter c = (leb b'a' c && leb c b'z') || (leb b'A' c && leb c b'Z')

-- `[0-9.]` and `[a-zA-Z0-9/:._-]`
abbrev pub is_amount_char : ℕ → Bool
is_amount_char c = is_digit c || c == b'.'

abbrev pub is_denom_char : ℕ → Bool
is_denom_char c =
    is_letter c || is_digit c || c == b'/' || c == b':' || c == b'.' || c == b'_' || c == b'-'

abbrev pub is_denom : Text → Bool
is_denom [] = false
is_denom (c ∷ s) = is_letter c && all is_denom_char s

-- The longest run of `[0-9.]` at the start, and the rest.
unfoldable pub span_amount : Text → Text × Text
span_amount [] = ([], [])
span_amount (c ∷ s) =
    if is_amount_char c then (c ∷ (span_amount s).0, (span_amount s).1) else ([], c ∷ s)

-- `/^([0-9.]+)([a-zA-Z][a-zA-Z0-9/:._-]*)$/`. No letter is in the first group, which so takes the
-- whole run.
unfoldable pub match_gas_price : Text → Option (Text × Text)
match_gas_price s =
    let groups = span_amount s in
    if leb 1 (length groups.0) && is_denom groups.1 then some groups else none

pub record GasPrice (B : Type 0) : Type 0 where
  pub amount : Decimal B
  pub denom : Text

module _ (bn : BigNumber) where
  open bn use {BN}

  abbrev price_of_match : Option (Text × Text) → Result (GasPrice BN)
  price_of_match none = throws "Invalid gas price string"
  price_of_match (some (amount, denom)) = do
    checked ← check_denom denom
    decimal_amount ← from_user_input bn amount (int (pos 18))
    ok (record { amount = decimal_amount; denom = checked })

  unfoldable pub gas_price_from_string : Text → Result (GasPrice BN)
  gas_price_from_string gas_price = price_of_match (match_gas_price gas_price)

  unfoldable pub gas_price_to_string : GasPrice BN → Text
  gas_price_to_string price = to_string bn price.amount ++ price.denom

  -- `GasPrice | string`
  pub data PriceInput : Type 0 where
    as_price : GasPrice BN → PriceInput
    as_string : Text → PriceInput

  abbrev pub processed : PriceInput → Result (GasPrice BN)
  processed (as_price price) = ok price
  processed (as_string text) = gas_price_from_string text

  -- The gas limit prints like the Uint53 that it is the number of.
  unfoldable pub calculate_fee : Number → PriceInput → Result StdFee
  calculate_fee gas_limit gas_price = do
    price ← processed gas_price
    limit ← new_uint53 gas_limit
    product ← multiply bn price.amount (uint53_to_string limit)
    rounded ← ceil bn product
    amount ← coins (as_text (to_string bn rounded)) price.denom
    ok (record { amount = amount; gas = uint53_to_string limit; granter = none; payer = none })
