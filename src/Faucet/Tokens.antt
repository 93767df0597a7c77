-- ===== src/Faucet/Tokens.antt =====
-- packages/faucet/src/tokenmanager.ts. The texts of the environment are arguments.
pub mod Limits
mod Tests
use cosmjs.Prelude.{
  ℕ, zero, suc, ◌*◌, Bool, Option, none, some, List, [], ◌∷◌, ltb, if◌then◌else◌, Result, ◌>>=◌,
  ◌>>◌, ok, Text, text_eq,
}
use cosmjs.Prelude.Int.{ℤ, pos, negsuc, pos_part}
use cosmjs.Math.Number.{Number, nan, infinite, fraction, large, int, number_of, negate}
use cosmjs.Math.Int53.{Uint53, new_uint53, uint53_from_string, uint53_to_string, to_number}
use cosmjs.Math.BigNumber.{BigNumber}
use cosmjs.Math.Decimal
use cosmjs.Amino.Coins.{Coin}

abbrev pub default_credit_amount : ℕ
default_credit_amount = 10000000

-- An unset variable and an empty one are both false.
unfoldable pub default_amount : Option Text → Result ℕ
default_amount none = ok default_credit_amount
default_amount (some []) = ok default_credit_amount
default_amount (some (c ∷ s)) = do
  parsed ← uint53_from_string (c ∷ s)
  ok (pos_part (to_number parsed))

-- `customAmount && customAmount < defaultAmount ? customAmount : defaultAmount`, for an amount
-- that is an integer.
unfoldable pub chosen_amount : Option ℤ → ℕ → ℤ
chosen_amount none d = pos d
chosen_amount (some (pos zero)) d = pos d
chosen_amount (some (pos (suc n))) d = if ltb (suc n) d then pos (suc n) else pos d
chosen_amount (some (negsuc n)) d = negsuc n

-- `amount * factor` with a factor from 0 on.
unfoldable pub times : ℤ → ℕ → Number
times (pos n) k = number_of (n * k)
times (negsuc n) k = negate (number_of (suc n * k))

unfoldable pub credit_amount : Option Text → Text → ℕ → Option ℤ → Result Coin
credit_amount env denom factor custom_amount = do
  d ← default_amount env
  value ← new_uint53 (times (chosen_amount custom_amount d) factor)
  ok (record { denom = denom; amount = uint53_to_string value })

-- `factorFromEnv || default`, where the variable is parsed by `Number.parseInt`: NaN and 0 are
-- false.
unfoldable pub factor_or : ℕ → Number → Number
factor_or d nan = int (pos d)
factor_or d (int (pos zero)) = int (pos d)
factor_or d x = x

unfoldable pub amount_by_factor : ℕ → Option Text → Text → Number → Result Coin
amount_by_factor d env denom parsed = do
  factor ← new_uint53 (factor_or d parsed)
  credit_amount env denom (pos_part (to_number factor)) none

abbrev pub refill_amount : Option Text → Text → Number → Result Coin
refill_amount = amount_by_factor 20

abbrev pub refill_threshold : Option Text → Text → Number → Result Coin
refill_threshold = amount_by_factor 8

-- `account.balance.find(…)`, and its amount or "0".
unfoldable pub balance_of : List Coin → Text → Text
balance_of [] denom = b'0' ∷ []
balance_of (c ∷ cs) denom = if text_eq c.denom denom then c.amount else balance_of cs denom

module _ (bn : BigNumber) where
  unfoldable pub needs_refill : List Coin → Option Text → Text → Number → Result Bool
  needs_refill balance env denom parsed = do
    held ← Decimal.from_atomics bn (balance_of balance denom) (int (pos 0))
    threshold_amount ← refill_threshold env denom parsed
    threshold ← Decimal.from_atomics bn threshold_amount.amount (int (pos 0))
    Decimal.is_less_than bn held threshold
