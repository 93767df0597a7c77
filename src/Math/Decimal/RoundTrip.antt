-- ===== src/Math/Decimal/RoundTrip.antt =====
-- `toString` and `fromUserInput`.
use native.Mathlib.Nat.{mod-lt, div-add-mod'}
use mathlib.Core.Path.{subst}
use cosmjs.Prelude.{
  ℕ, ◌+◌, ◌-◌, ◌*◌, ◌/◌, ◌%◌, ◌^◌, ◌≤◌, ◌<◌, ◌≡◌, refl, sym, ◌≢◌, inl, inr, [], ◌∷◌, ◌++◌, arith,
  ◌==◌, Bool-cases, length, length-append, replicate, length-replicate, All, All-append, Text,
  IsDigit, value_from, to_decimal, value-to_decimal, to_decimal-IsDigit, to_decimal-ne-nil,
  length-to_decimal,
}
use cosmjs.Prelude.Int.{pos}
use cosmjs.Math.Number.{int}
use cosmjs.Math.BigNumber.{BigNumber}
use cosmjs.Math.Decimal.{
  Decimal, max_fractional_digits, from_user_input, dot, trim_zeros, pad_end, pad_start, to_string,
}
use cosmjs.Math.Decimal.Arithmetic.{Is, Returns, rest_zero_lem, rest_lem, whole_lem}
use cosmjs.Math.Decimal.Digits.{value_from-append, value_from-zeros, one-le-ten_pow, IsDigit-zeros}
use cosmjs.Math.Decimal.Trim.{
  length-trim_zeros, pad_end-trim_zeros, All-trim_zeros, trim_zeros_idem,
}
use cosmjs.Math.Decimal.Parse.{from_user_input_integer, from_user_input-dot}

-- The fractional part of `toString` before its zeros are dropped.
module _ (r digits : ℕ) (positive : 0 < r) (lt : r < 10 ^ digits) where
  abbrev padded : Text
  padded = pad_start (to_decimal r) digits

  length-padded : length padded ≡ digits
  length-padded = omega (
    arith,
    length-append (replicate (digits - length (to_decimal r)) b'0') (to_decimal r),
    length-replicate {A = ℕ} (digits - length (to_decimal r)) b'0',
    length-to_decimal r digits positive lt,
  )

  value-padded : value_from 0 padded ≡ r
  value-padded =
      let none : 0 * 10 ^ (digits - length (to_decimal r)) ≡ 0 = omega arith in
      rw
        (
          value_from-append 0 (replicate (digits - length (to_decimal r)) b'0') (to_decimal r),
          value_from-zeros 0 (digits - length (to_decimal r)),
          none,
        )
        (value-to_decimal r)

  padded-IsDigit : All IsDigit padded
  padded-IsDigit = All-append IsDigit _ (to_decimal r) (IsDigit-zeros _) (to_decimal-IsDigit r)

  trimmed : pad_end (trim_zeros padded) digits ≡ padded
  trimmed =
      subst (λ (n : ℕ). pad_end (trim_zeros padded) n ≡ padded) length-padded
        (pad_end-trim_zeros padded)

-- The digits behind the separator, without zeros at the end and with them.
pub fractional_part :
    (r digits : ℕ)
    → 0 < r
    → r < 10 ^ digits
    → All IsDigit (trim_zeros (pad_start (to_decimal r) digits))
      × (pad_end (trim_zeros (pad_start (to_decimal r) digits)) digits
          ≡ pad_start (to_decimal r) digits)
      × All IsDigit (pad_start (to_decimal r) digits)
      × (length (pad_start (to_decimal r) digits) ≡ digits)
      × (value_from 0 (pad_start (to_decimal r) digits) ≡ r)
fractional_part r digits positive lt = (
  All-trim_zeros (padded r digits positive lt) (padded-IsDigit r digits positive lt),
  trimmed r digits positive lt,
  padded-IsDigit r digits positive lt,
  length-padded r digits positive lt,
  value-padded r digits positive lt,
)

module _ (bn : BigNumber) (d : Decimal bn.BN) (m digits : ℕ) (h : Is bn d m digits) where
  open bn use {print}

  -- The text behind the separator is read back as the fractional part.
  read_fractional :
      (f : Text) (r : ℕ)
      → digits ≤ max_fractional_digits
      → 0 < r
      → m ≡ m / 10 ^ digits * 10 ^ digits + r
      → All IsDigit f
      → trim_zeros f ≡ f
      → length f ≤ digits
      → value_from 0 (pad_end f digits) ≡ r
      → Returns bn
          (from_user_input bn (to_decimal (m / 10 ^ digits) ++ dot ∷ f) (int (pos digits)))
          m
          digits
  read_fractional [] r fits positive split hf idem short value =
      absurd (omega (arith, value_from-zeros 0 (digits - 0)))
  read_fractional (c ∷ f) r fits positive split hf idem short value =
      let w = to_decimal (m / 10 ^ digits) in
      let total : value_from 0 w * 10 ^ digits + value_from 0 (pad_end (trim_zeros (c ∷ f)) digits)
          ≡ m =
        rw (idem, value, value-to_decimal (m / 10 ^ digits)) (sym split) in
      subst
        (λ (n : ℕ). Returns bn (from_user_input bn (w ++ dot ∷ c ∷ f) (int (pos digits))) n digits)
        total
        (from_user_input-dot bn w c f digits fits (to_decimal-IsDigit _) hf (rw idem short)
          (append-ne-nil w _ (to_decimal-ne-nil _)))
    where
      append-ne-nil : (s t : Text) → s ≢ [] → s ++ t ≢ []
      append-ne-nil [] t k = absurd (k refl)
      append-ne-nil (x ∷ s) t k = ground arith

  -- The text that `toString` prints of a decimal with up to 100 fractional digits is read back,
  -- for as many digits, as the same decimal.
  pub from_user_input-to_string :
      digits ≤ max_fractional_digits
      → Returns bn (from_user_input bn (to_string bn d) (int (pos digits))) m digits
  unfolding to_string
  from_user_input-to_string fits = elim (Bool-cases (m % 10 ^ digits == 0)) [
    | inl z ↦
        let whole : value_from 0 (to_decimal (m / 10 ^ digits)) * 10 ^ digits ≡ m =
          rw (value-to_decimal (m / 10 ^ digits)) (ground (arith, div-add-mod' m (10 ^ digits))) in
        rw (rest_zero_lem bn d m digits h, z, bn.print_lem _ _ (whole_lem bn d m digits h))
          (subst
            (λ (n : ℕ).
              Returns bn (from_user_input bn (to_decimal (m / 10 ^ digits)) (int (pos digits))) n
                digits)
            whole
            (from_user_input_integer bn (to_decimal (m / 10 ^ digits)) digits fits
              (to_decimal-IsDigit _)))
    | inr nz ↦
        let r = m % 10 ^ digits in
        let positive : 0 < r = ground arith in
        let lt : r < 10 ^ digits = mod-lt m (one-le-ten_pow digits) in
        let p = padded r digits positive lt in
        rw
          (
            rest_zero_lem bn d m digits h,
            nz,
            bn.print_lem _ _ (whole_lem bn d m digits h),
            bn.print_lem _ _ (rest_lem bn d m digits h),
            h.digits_lem,
          )
          (read_fractional (trim_zeros p) r fits positive (sym (div-add-mod' m (10 ^ digits)))
            (All-trim_zeros p (padded-IsDigit r digits positive lt)) (trim_zeros_idem p)
            (omega (arith, length-trim_zeros p, length-padded r digits positive lt))
            (rw (trimmed r digits positive lt) (value-padded r digits positive lt)))
  ]
