-- ===== src/Amino/Coins.antt =====
-- packages/amino/src/coins.ts. Texts are lists of UTF-16 code units.
pub mod Print
pub mod Sum
mod Tests
use Prim.Native.String.{String}
use mathlib.Core.List.{flat_map}
use cosmjs.Prelude.{
  ℕ, ◌/◌, Bool, false, not, ◌&&◌, ◌||◌, List, [], ◌∷◌, leb, ◌==◌, if◌then◌else◌, length, all,
  Result, ◌>>=◌, ◌>>◌, throw_if, ok, throws, Text, text_eq, is_digit, is_digits, split, span_digits,
  drop_zeros, or_zero,
}
use cosmjs.Prelude.Int.{pos}
use cosmjs.Math.Number.{Number, int}
use cosmjs.Math.Int53.{Uint53, new_uint53, uint53_to_string}
use cosmjs.Math.BigNumber.{BigNumber}
use cosmjs.Math.Decimal
use cosmjs.Math.Decimal.{Decimal}

pub record Coin : Type 0 where
  pub denom : Text
  pub amount : Text

-- `number | string`
pub data Amount : Type 0 where
  as_number : Number → Amount
  as_text : Text → Amount

abbrev caught : Result Uint53 → Text → Result Coin
caught (ok u) denom = ok (record { denom = denom; amount = uint53_to_string u })
caught (throws m) denom =
    throws
      "Given amount is not a safe integer. Consider using a string instead to overcome the limitations of JS numbers."

unfoldable pub coin : Amount → Text → Result Coin
coin (as_number amount) denom = caught (new_uint53 amount) denom
coin (as_text amount) denom = do
  throw_if (not (is_digits amount)) "Invalid unsigned integer string format"
  ok (record { denom = denom; amount = or_zero (drop_zeros amount) })

unfoldable pub coins : Amount → Text → Result (List Coin)
coins amount denom = do c ← coin amount denom; ok (c ∷ [])

-- `\s`: the white space and line terminators of JavaScript.
unfoldable pub is_space : ℕ → Bool
is_space c =
    (leb 9 c && leb c 13)
    || c == 0x20
    || c == 0xa0
    || c == 0x1680
    || (leb 0x2000 c && leb c 0x200a)
    || c == 0x2028
    || c == 0x2029
    || c == 0x202f
    || c == 0x205f
    || c == 0x3000
    || c == 0xfeff

unfoldable pub remove_spaces : Text → Text
unfolding is_space
remove_spaces [] = []
remove_spaces (c ∷ s) = if is_space c then remove_spaces s else c ∷ remove_spaces s

-- `.filter(Boolean)`
unfoldable pub nonempty : List Text → List Text
nonempty [] = []
nonempty ([] ∷ ps) = nonempty ps
nonempty ((c ∷ s) ∷ ps) = (c ∷ s) ∷ nonempty ps

abbrev pub is_letter : ℕ → Bool
is_letter c = (leb b'a' c && leb c b'z') || (leb b'A' c && leb c b'Z')

abbrev pub is_denom_char : ℕ → Bool
is_denom_char c = is_letter c || is_digit c || c == b'/'

-- `[a-zA-Z][a-zA-Z0-9/]{2,127}` on the whole text.
unfoldable pub is_denom : Text → Bool
is_denom [] = false
is_denom (c ∷ s) = is_letter c && (all is_denom_char s && (leb 2 (length s) && leb (length s) 127))

unfoldable pub parse_coin : Text → Result Coin
unfolding is_denom
parse_coin part = do
  let digits = (span_digits part).0
  let denom = (span_digits part).1
  throw_if (not (is_digits digits && is_denom denom)) "Got an invalid coin string"
  ok (record { denom = denom; amount = or_zero (drop_zeros digits) })

unfoldable pub parse_all : List Text → Result (List Coin)
unfolding parse_coin
parse_all [] = ok []
parse_all (p ∷ ps) = do c ← parse_coin p; cs ← parse_all ps; ok (c ∷ cs)

unfoldable pub parse_coins : Text → Result (List Coin)
unfolding remove_spaces nonempty parse_all
parse_coins input = parse_all (nonempty (split b',' (remove_spaces input)))

module _ (bn : BigNumber) where
  unfoldable pub add_coins : Coin → Coin → Result Coin
  add_coins lhs rhs = do
    throw_if (not (text_eq lhs.denom rhs.denom)) "Trying to add two coins with different denoms"
    l ← Decimal.from_atomics bn lhs.amount (int (pos 0))
    r ← Decimal.from_atomics bn rhs.amount (int (pos 0))
    sum ← Decimal.plus bn l r
    ok (record { denom = lhs.denom; amount = Decimal.atomics_text bn sum })
