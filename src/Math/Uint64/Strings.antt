-- ===== src/Math/Uint64/Strings.antt =====
-- Uint64 from and to decimal text, and from numbers.
use native.Mathlib.Decide.{dec_lt}
use cosmjs.Prelude.{
  ℕ, ◌^◌, ◌≤◌, ◌<◌, ◌≡◌, ap, ◌∙◌, ◌⊎◌, inl, inr, true, arith, ok, throws, Text, is_digits,
  value_from, to_decimal, value-to_decimal, is_digits-to_decimal,
}
use cosmjs.Prelude.Int.{pos, negsuc}
use cosmjs.Math.Number.{int}
use cosmjs.Math.BigNumber.{BigNumber}
use cosmjs.Math.Uint64.{Uint64, new_uint64, from_string, from_number, to_string}
use cosmjs.Math.Uint64.ByteOrder.{IsUint64, new_uint64_lem, new_uint64_above}

module _ (bn : BigNumber) where
  open bn use {BN, value, of_digits, of_int}

  -- A text of digits below 2^64 is accepted with its value, any other text of digits is refused.
  pub uint64_from_string_lem :
      (s : Text)
      → is_digits s ≡ true
      → ((u : Uint64 BN) × (from_string bn s ≡ ok u) × IsUint64 bn u.number (value_from 0 s))
        ⊎ ((2 ^ 64 ≤ value_from 0 s) × (from_string bn s ≡ throws "Input exceeds uint64 range"))
  unfolding from_string
  uint64_from_string_lem s h =
      let e = bn.value-of_digits s h in
      elim (dec_lt (value_from 0 s) (2 ^ 64)) [
        | yes p ↦ inl (
          record { number = of_digits s },
          rw h (new_uint64_lem bn (of_digits s) (value_from 0 s) (e, p)),
          (e, p),
        )
        | no p ↦
            inr (
              omega arith,
              rw h (new_uint64_above bn (of_digits s) (value_from 0 s) e (omega arith)),
            )
      ]

  -- Every Uint64 is read back from its text as the same number.
  pub uint64_from_string-to_string :
      (u : Uint64 BN) (n : ℕ)
      → IsUint64 bn u.number n
      → (v : Uint64 BN) × (from_string bn (to_string bn u) ≡ ok v) × (value v.number ≡ pos n)
  unfolding from_string to_string
  uint64_from_string-to_string u n (e, h) =
      let back : value (of_digits (to_decimal n)) ≡ pos n =
        bn.value-of_digits (to_decimal n) (is_digits-to_decimal n) ∙ ap pos (value-to_decimal n) in
      (
        record { number = of_digits (to_decimal n) },
        rw (bn.print_lem u.number n e, is_digits-to_decimal n)
            (new_uint64_lem bn (of_digits (to_decimal n)) n (back, h)),
        back,
      )

  -- A negative integer is refused by `fromNumber`, a safe integer from 0 on is accepted as it is.
  pub from_number_lem :
      (n : ℕ)
      → (from_number bn (int (negsuc n)) ≡ throws "Input is negative")
        × (n < 2 ^ 53
            → (u : Uint64 BN) × (from_number bn (int (pos n)) ≡ ok u) × (value u.number ≡ pos n))
  unfolding from_number
  from_number_lem n = (
    unfold new_uint64 in rw (bn.is_neg_lem (of_int (negsuc n)), bn.value-of_int (negsuc n)),
    λ h. (
      record { number = of_int (pos n) },
      new_uint64_lem bn (of_int (pos n)) n (bn.value-of_int (pos n), omega arith),
      bn.value-of_int (pos n),
    ),
  )
