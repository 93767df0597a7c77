-- ===== src/Amino/Coins/Sum.antt =====
-- Adding two coins.

use cosmjs.Prelude.{
  ◌+◌, ◌≡◌, refl, ◌≢◌, inl, inr, true, Bool-cases, ok, throws, Text, text_eq, is_digits, value_from,
  to_decimal, text_eq_refl, text_eq_sound,
}
use cosmjs.Prelude.Int.{pos}
use cosmjs.Math.Number.{int}
use cosmjs.Math.BigNumber.{BigNumber}
use cosmjs.Math.Decimal.{from_atomics, verify_fractional_digits, new_decimal}
use cosmjs.Math.Decimal.Arithmetic.{Returns, plus_lem}
use cosmjs.Amino.Coins.{Coin, add_coins}

module _ (bn : BigNumber) where
  from_atomics_lem :
      (s : Text)
      → is_digits s ≡ true
      → Returns bn (from_atomics bn s (int (pos 0))) (value_from 0 s) 0
  unfolding from_atomics verify_fractional_digits new_decimal
  from_atomics_lem s h = (
    record { atomics = bn.of_digits s; fractional_digits = 0 },
    rw h,
    record { atomics = bn.value-of_digits s h; digits_lem = refl },
  )

  -- Coins of one denom whose amounts are texts of digits are added exactly, however large the
  -- amounts are.
  pub add_coins_lem :
      (denom a b : Text)
      → is_digits a ≡ true
      → is_digits b ≡ true
      → add_coins bn (record { denom = denom; amount = a }) (record { denom = denom; amount = b })
        ≡ ok (record { denom = denom; amount = to_decimal (value_from 0 a + value_from 0 b) })
  unfolding add_coins
  add_coins_lem denom a b ha hb =
      let (l, el, isl) = from_atomics_lem a ha in
      let (r, er, isr) = from_atomics_lem b hb in
      let (sum, es, iss) = plus_lem bn l r (value_from 0 a) (value_from 0 b) 0 isl isr in
      rw (
        text_eq_refl denom,
        el,
        er,
        es,
        bn.print_lem sum.atomics (value_from 0 a + value_from 0 b) iss.atomics,
      )

  -- Coins of different denoms are not added.
  pub add_coins_denoms :
      (lhs rhs : Coin)
      → lhs.denom ≢ rhs.denom
      → add_coins bn lhs rhs ≡ throws "Trying to add two coins with different denoms"
  unfolding add_coins
  add_coins_denoms lhs rhs h = elim (Bool-cases (text_eq lhs.denom rhs.denom)) [
    | inl same ↦ absurd (h (text_eq_sound lhs.denom rhs.denom same))
    | inr different ↦ rw different
  ]
