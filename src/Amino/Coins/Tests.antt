-- ===== src/Amino/Coins/Tests.antt =====
-- Coins at concrete texts.
use cosmjs.Prelude.{
  ◌+◌, ◌≡◌, refl, true, List, [], ◌∷◌, arith, ok, throws, codes, is_digits, drop_zeros, or_zero,
  value_from, to_decimal,
}
use cosmjs.Math.BigNumber.{native}
use cosmjs.Amino.Coins.{Coin, as_text, coin, parse_coins, add_coins, is_denom}
use cosmjs.Amino.Coins.Print.{print_coins, parse_coins-print_coins, coin-value}
use cosmjs.Amino.Coins.Sum.{add_coins_lem, add_coins_denoms}

abbrev two_coins : List Coin
two_coins =
    record { denom = codes "ucosm"; amount = codes "819966000" }
    ∷ record { denom = codes "ibc/27"; amount = codes "0" }
    ∷ []

parse_coins-print_coins_example : parse_coins (print_coins two_coins) ≡ ok two_coins
parse_coins-print_coins_example =
    parse_coins-print_coins two_coins
      (((819966000, amount_of_first), first_denom), (((0, zero_amount), second_denom), tt))
  where
    amount_of_first : codes "819966000" ≡ to_decimal 819966000
    amount_of_first = unfold to_decimal in refl

    zero_amount : codes "0" ≡ to_decimal 0
    zero_amount = unfold to_decimal in refl

    first_denom : is_denom (codes "ucosm") ≡ true
    first_denom = unfold is_denom in refl

    second_denom : is_denom (codes "ibc/27") ≡ true
    second_denom = unfold is_denom in refl

coin-value_example :
    (value_from 0 (codes "12") ≡ value_from 0 (codes "0012"))
    × (codes "ustake" ≡ codes "ustake")
    × (is_digits (codes "0012") ≡ true)
coin-value_example =
    coin-value (codes "0012") (codes "ustake")
      (record { denom = codes "ustake"; amount = codes "12" }) made
  where
    made :
        coin (as_text (codes "0012")) (codes "ustake")
        ≡ ok (record { denom = codes "ustake"; amount = codes "12" })
    made = unfold coin drop_zeros or_zero in refl

add_coins_lem_example :
    add_coins native
      (record { denom = codes "ustake"; amount = codes "99999999999999999999" })
      (record { denom = codes "ustake"; amount = codes "1" })
    ≡ ok (record {
      denom = codes "ustake";
      amount = to_decimal (value_from 0 (codes "99999999999999999999") + value_from 0 (codes "1"));
    })
add_coins_lem_example =
    add_coins_lem native (codes "ustake") (codes "99999999999999999999") (codes "1") refl refl

add_coins_denoms_example :
    add_coins native
      (record { denom = codes "a"; amount = codes "1" })
      (record { denom = codes "b"; amount = codes "1" })
    ≡ throws "Trying to add two coins with different denoms"
add_coins_denoms_example =
    add_coins_denoms native (record { denom = codes "a"; amount = codes "1" })
      (record { denom = codes "b"; amount = codes "1" }) (ground arith)
