-- ===== src/Faucet/Tokens/Tests.antt =====
-- The faucet at concrete amounts.
use cosmjs.Prelude.{◌*◌, ◌≤◌, ◌≡◌, refl, none, some, ok, codes, value_from, to_decimal}
use cosmjs.Prelude.Int.{pos}
use cosmjs.Math.Number.{number_of, int_to_string}
use cosmjs.Math.Int53.{new_uint53, new_int53, uint53_to_string, to_string}
use cosmjs.Amino.Coins.{Coin}
use cosmjs.Faucet.Tokens.{default_amount, chosen_amount, times, credit_amount}
use cosmjs.Faucet.Tokens.Limits.{credit_amount_limit}

-- The default amount is 10000000, and 3000 is asked for.
abbrev credited_coin : Coin
credited_coin = record { denom = codes "ncheq"; amount = codes "3000" }

default_known : default_amount none ≡ ok 10000000
unfolding default_amount
default_known = refl

credited_known : credit_amount none (codes "ncheq") 1 (some (pos 3000)) ≡ ok credited_coin
unfolding credit_amount default_amount chosen_amount times number_of new_uint53 new_int53
    uint53_to_string to_string int_to_string to_decimal
credited_known = refl

credit_amount_limit_example :
    (value_from 0 (codes "3000") ≤ 10000000 * 1) × (codes "ncheq" ≡ codes "ncheq")
credit_amount_limit_example =
    credit_amount_limit none (codes "ncheq") 1 (some (pos 3000)) 10000000 credited_coin
      default_known credited_known
