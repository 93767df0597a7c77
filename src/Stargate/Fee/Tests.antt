-- ===== src/Stargate/Fee/Tests.antt =====
-- fee.ts at concrete prices, over a concrete bn.js.
use cosmjs.Prelude.{
  ℕ, ◌+◌, ◌*◌, ◌^◌, ◌≤◌, ◌<◌, ◌≡◌, refl, none, some, [], ◌∷◌, arith, ok, codes, to_decimal,
}
use cosmjs.Prelude.Int.{ℤ, pos}
use cosmjs.Math.Number.{int}
use cosmjs.Math.BigNumber.{native}
use cosmjs.Math.Decimal.Arithmetic.{Is}
use cosmjs.Stargate.Fee.{
  GasPrice, match_gas_price, span_amount, gas_price_from_string, gas_price_to_string, calculate_fee,
  as_price,
}
use cosmjs.Stargate.Fee.Price.{gas_price_from_string-to_string}
use cosmjs.Stargate.Fee.Amount.{calculate_fee_lem}

-- 0.025ucosm
abbrev price : GasPrice ℤ
price = record {
  amount = record { atomics = pos 25000000000000000; fractional_digits = 18 };
  denom = codes "ucosm";
}

price-Is : Is native price.amount 25000000000000000 18
price-Is = record { atomics = refl; digits_lem = refl }

match_price : match_gas_price (codes "0.025ucosm") ≡ some (codes "0.025", codes "ucosm")
unfolding match_gas_price span_amount
match_price = refl

no_price : match_gas_price (codes "ucosm") ≡ none
unfolding match_gas_price span_amount
no_price = refl

gas_price_from_string-to_string_example :
    (read : GasPrice ℤ) × (gas_price_from_string native (gas_price_to_string native price)
      ≡ ok read)
    × Is native read.amount 25000000000000000 18
    × (read.denom ≡ price.denom)
gas_price_from_string-to_string_example =
    gas_price_from_string-to_string native price 25000000000000000 price-Is refl (omega arith)
      (omega arith)

-- 80000 gas cost 2000ucosm.
calculate_fee_lem_example :
    (fee : ℕ) × (calculate_fee native (int (pos 80000)) (as_price price)
      ≡ ok (record {
        amount = record { denom = price.denom; amount = to_decimal fee } ∷ [];
        gas = to_decimal 80000;
        granter = none;
        payer = none;
      }))
    × (25000000000000000 * 80000 ≤ fee * 10 ^ 18)
    × (fee * 10 ^ 18 < 25000000000000000 * 80000 + 10 ^ 18)
calculate_fee_lem_example =
    calculate_fee_lem native price 25000000000000000 80000 18 price-Is (omega arith) (omega arith)
