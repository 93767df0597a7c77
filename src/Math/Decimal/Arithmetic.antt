-- ===== src/Math/Decimal/Arithmetic.antt =====
-- Decimals as numbers: each operation on the atomics.
use Prim.Native.Nat.{compare}
use native.Mathlib.Nat.{mod-lt, div-add-mod', mul-mod_left}
use cosmjs.Prelude.{
  ℕ, ◌+◌, ◌-◌, ◌*◌, ◌/◌, ◌%◌, ◌^◌, ◌≤◌, ◌<◌, ◌≡◌, refl, ap, ◌∙◌, ◌≢◌, inl, inr, true, false, arith,
  ltb, leb, ◌==◌, Bool-cases, Result, ok, throws, is_digits, to_decimal, value-to_decimal,
  is_digits-to_decimal,
}
use cosmjs.Prelude.Int.{pos, negsuc, sub_ℕ}
use cosmjs.Math.Number.{int}
use cosmjs.Math.BigNumber.{BigNumber}
use cosmjs.Math.Decimal.{
  Decimal, max_fractional_digits, verify_fractional_digits, new_decimal, from_atomics,
  compare_decimals, floor, ceil, plus, minus, multiply, equals, is_less_than, is_less_than_or_equal,
  is_greater_than, is_greater_than_or_equal,
}
use cosmjs.Math.Decimal.Digits.{one-le-ten_pow}

module _ (bn : BigNumber) where
  open bn use {BN, value, of_digits, of_int, print}

  -- The decimal has these atomics and fractional digits.
  pub record Is (d : Decimal BN) (n digits : ℕ) : Type 0 where
    pub atomics : value d.atomics ≡ pos n
    pub digits_lem : d.fractional_digits ≡ digits

  -- The call returns a decimal with these atomics and fractional digits.
  abbrev pub Returns : Result (Decimal BN) → ℕ → ℕ → Type 0
  Returns r n digits = (d : Decimal BN) × (r ≡ ok d) × Is d n digits

  pub reparse : (x : BN) (n : ℕ) → value x ≡ pos n → value (of_digits (print x)) ≡ pos n
  reparse x n h = rw (
    bn.print_lem x n h,
    bn.value-of_digits (to_decimal n) (is_digits-to_decimal n),
    value-to_decimal n,
  )

  pub new_decimal-print :
      (x : BN) (n digits : ℕ) → value x ≡ pos n → Returns (new_decimal bn (print x) digits) n digits
  unfolding new_decimal
  new_decimal-print x n digits h =
      let text : is_digits (print x) ≡ true = rw (bn.print_lem x n h) (is_digits-to_decimal n) in
      (
        record { atomics = of_digits (print x); fractional_digits = digits },
        rw text,
        record { atomics = reparse x n h; digits_lem = refl },
      )

  module _ (a b : Decimal BN) (m n digits : ℕ) (ha : Is a m digits) (hb : Is b n digits) where
    same_digits : (a.fractional_digits == b.fractional_digits) ≡ true
    same_digits = ground (arith, ha.digits_lem, hb.digits_lem)

    -- Two decimals of equal fractional digits are added exactly, whatever their size.
    pub plus_lem : Returns (plus bn a b) (m + n) digits
    unfolding plus
    plus_lem =
        rw (same_digits, ha.digits_lem)
          (new_decimal-print _ (m + n) digits
            (bn.value-add _ _ m n ha.atomics (reparse _ n hb.atomics)))

    difference : value (bn.sub a.atomics (of_digits (print b.atomics))) ≡ sub_ℕ m n
    difference = bn.value-sub _ _ m n ha.atomics (reparse _ n hb.atomics)

    -- For two decimals of equal fractional digits, the second not greater than the first, the
    -- difference is exact.
    pub minus_lem : n ≤ m → Returns (minus bn a b) (m - n) digits
    unfolding minus
    minus_lem h =
        let e : sub_ℕ m n ≡ pos (m - n) = ground arith in
        rw
          (
            same_digits,
            bn.is_neg_lem (bn.sub a.atomics (of_digits (print b.atomics))),
            difference,
            e,
            ha.digits_lem,
          )
          (new_decimal-print _ (m - n) digits (difference ∙ e))

    -- For two decimals of equal fractional digits, the second greater than the first, `minus`
    -- throws.
    pub minus_negative : m < n → minus bn a b ≡ throws "Difference must not be negative"
    unfolding minus
    minus_negative h =
        let e : sub_ℕ m n ≡ negsuc (n - m - 1) = ground arith in
        rw (
          same_digits,
          bn.is_neg_lem (bn.sub a.atomics (of_digits (print b.atomics))),
          difference,
          e,
        )

    pub compare_lem : compare_decimals bn a b ≡ ok (compare m n)
    unfolding compare_decimals
    compare_lem = rw (
      same_digits,
      bn.cmp_lem a.atomics (of_digits (print b.atomics)) m n ha.atomics (reparse _ n hb.atomics),
    )

    -- For two decimals of equal fractional digits the five comparisons answer as the atomics
    -- compare.
    pub comparisons :
        (equals bn a b ≡ ok (m == n))
        × (is_less_than bn a b ≡ ok (ltb m n))
        × (is_less_than_or_equal bn a b ≡ ok (leb m n))
        × (is_greater_than bn a b ≡ ok (ltb n m))
        × (is_greater_than_or_equal bn a b ≡ ok (leb n m))
    unfolding equals is_less_than is_less_than_or_equal is_greater_than is_greater_than_or_equal
    comparisons =
        rw compare_lem (ground arith, ground arith, ground arith, ground arith, ground arith)

  -- Decimals of different fractional digits are not mixed: each operation on two throws.
  pub digits_mismatch :
      (a b : Decimal BN)
      → a.fractional_digits ≢ b.fractional_digits
      → (plus bn a b ≡ throws "Fractional digits do not match")
        × (minus bn a b ≡ throws "Fractional digits do not match")
        × (compare_decimals bn a b ≡ throws "Fractional digits do not match")
  unfolding plus minus compare_decimals
  digits_mismatch a b h =
      let e : (a.fractional_digits == b.fractional_digits) ≡ false = ground arith in
      (rw e, rw e, rw e)

  -- Multiplication by an unsigned integer, which comes as its decimal text, is exact.
  pub multiply_lem :
      (a : Decimal BN) (m digits k : ℕ)
      → Is a m digits
      → Returns (multiply bn a (to_decimal k)) (m * k) digits
  unfolding multiply
  multiply_lem a m digits k ha = rw (ha.digits_lem) (
      new_decimal-print _ (m * k) digits (
        bn.value-mul a.atomics (of_digits (to_decimal k)) m k ha.atomics (
          bn.value-of_digits (to_decimal k) (is_digits-to_decimal k)
          ∙ ap pos (value-to_decimal k))))

  module _ (d : Decimal BN) (m digits : ℕ) (h : Is d m digits) where
    abbrev factor_bn : BN
    factor_bn = bn.pow (of_int (pos 10)) (of_int (pos d.fractional_digits))

    pub factor_lem : value factor_bn ≡ pos (10 ^ digits)
    factor_lem =
        bn.value-pow (of_int (pos 10)) (of_int (pos d.fractional_digits)) 10 digits
          (bn.value-of_int (pos 10))
          (bn.value-of_int (pos d.fractional_digits) ∙ ap pos h.digits_lem)

    pub whole_lem : value (bn.div d.atomics factor_bn) ≡ pos (m / 10 ^ digits)
    whole_lem =
        bn.value-div d.atomics factor_bn m (10 ^ digits) h.atomics factor_lem
          (one-le-ten_pow digits)

    pub rest_lem : value (bn.mod_of d.atomics factor_bn) ≡ pos (m % 10 ^ digits)
    rest_lem =
        bn.value-mod d.atomics factor_bn m (10 ^ digits) h.atomics factor_lem
          (one-le-ten_pow digits)

    pub rest_zero_lem : bn.is_zero (bn.mod_of d.atomics factor_bn) ≡ (m % 10 ^ digits == 0)
    rest_zero_lem = bn.is_zero_lem (bn.mod_of d.atomics factor_bn) (m % 10 ^ digits) rest_lem

    from_atomics-print :
        (x : BN) (n : ℕ)
        → digits ≤ max_fractional_digits
        → value x ≡ pos n
        → Returns (from_atomics bn (print x) (int (pos d.fractional_digits))) n digits
    unfolding from_atomics verify_fractional_digits
    from_atomics-print x n fits e =
        let low : ltb max_fractional_digits digits ≡ false = ground arith in
        rw (h.digits_lem, low) (new_decimal-print x n digits e)

    -- For a decimal with up to 100 fractional digits `floor` gives the greatest decimal of as
    -- many digits with no fractional part that is not above it.
    pub floor_lem :
        digits ≤ max_fractional_digits
        → (n : ℕ) × Returns (floor bn d) n digits
          × (n % 10 ^ digits ≡ 0)
          × (n ≤ m)
          × (m < n + 10 ^ digits)
    unfolding floor
    floor_lem fits = elim (Bool-cases (m % 10 ^ digits == 0)) [
      | inl z ↦ (
        m,
        rw (rest_zero_lem, z, h.digits_lem) (new_decimal-print d.atomics m digits h.atomics),
        ground arith,
        omega arith,
        omega (arith, one-le-ten_pow digits),
      )
      | inr nz ↦ (
        m / 10 ^ digits * 10 ^ digits,
        rw (rest_zero_lem, nz)
            (from_atomics-print _ _ fits (bn.value-mul _ _ _ _ whole_lem factor_lem)),
        mul-mod_left (m / 10 ^ digits) (10 ^ digits),
        omega (arith, div-add-mod' m (10 ^ digits), mod-lt m (one-le-ten_pow digits)),
        omega (arith, div-add-mod' m (10 ^ digits), mod-lt m (one-le-ten_pow digits)),
      )
    ]

    -- For a decimal with up to 100 fractional digits `ceil` gives the least decimal of as many
    -- digits with no fractional part that is not below it.
    pub ceil_lem :
        digits ≤ max_fractional_digits
        → (n : ℕ) × Returns (ceil bn d) n digits
          × (n % 10 ^ digits ≡ 0)
          × (m ≤ n)
          × (n < m + 10 ^ digits)
    unfolding ceil
    ceil_lem fits = elim (Bool-cases (m % 10 ^ digits == 0)) [
      | inl z ↦ (
        m,
        rw (rest_zero_lem, z, h.digits_lem) (new_decimal-print d.atomics m digits h.atomics),
        ground arith,
        omega arith,
        omega (arith, one-le-ten_pow digits),
      )
      | inr nz ↦ (
        (m / 10 ^ digits + 1) * 10 ^ digits,
        rw (rest_zero_lem, nz)
            (from_atomics-print _ _ fits
              (bn.value-mul _ _ _ _ (bn.value-addn _ _ 1 whole_lem) factor_lem)),
        mul-mod_left (m / 10 ^ digits + 1) (10 ^ digits),
        omega (arith, div-add-mod' m (10 ^ digits), mod-lt m (one-le-ten_pow digits)),
        ground (arith, div-add-mod' m (10 ^ digits)),
      )
    ]
