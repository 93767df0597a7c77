-- ===== src/Math/Decimal/Parse.antt =====
-- What `fromUserInput` makes of a text.
use cosmjs.Prelude.{
  ℕ, ◌+◌, ◌-◌, ◌*◌, ◌^◌, ◌≤◌, ◌<◌, ◌≡◌, refl, ap, ◌∙◌, ◌≢◌, true, false, not, [], ◌∷◌, ◌++◌, arith,
  ltb, ◌==◌, length, length-append, replicate, length-replicate, all, All, All-append, ok, throws,
  Text, IsDigit, split, or_zero, value_from, is_digits_of_All,
}
use cosmjs.Prelude.Int.{pos}
use cosmjs.Math.Number.{int}
use cosmjs.Math.BigNumber.{BigNumber}
use cosmjs.Math.Decimal.{
  max_fractional_digits, verify_fractional_digits, new_decimal, from_user_input,
  has_good_characters, dot, split_input, trim_zeros, pad_end,
}
use cosmjs.Math.Decimal.Arithmetic.{Returns}
use cosmjs.Math.Decimal.Digits.{
  value_from-append, value_from-shift, value_from-zeros, IsDigit-zeros,
}
use cosmjs.Math.Decimal.Trim.{All-trim_zeros}

All-good_digits : (s : Text) → All IsDigit s → has_good_characters s ≡ true
unfolding has_good_characters
All-good_digits [] h = refl
All-good_digits (c ∷ s) h = ground (arith, All-good_digits s h.1)

all_good_append :
    (s t : Text)
    → has_good_characters s ≡ true
    → has_good_characters t ≡ true
    → has_good_characters (s ++ t) ≡ true
unfolding has_good_characters
all_good_append [] t hs ht = ht
all_good_append (c ∷ s) t hs ht = ground (arith, all_good_append s t)

no_dots : (s : Text) → All IsDigit s → all (λ x. not (x == dot)) s ≡ true
no_dots [] h = refl
no_dots (c ∷ s) h = ground (arith, no_dots s h.1)

a_dot : (s t : Text) → all (λ x. not (x == dot)) (s ++ dot ∷ t) ≡ false
a_dot [] t = refl
a_dot (c ∷ s) t = ground (arith, a_dot s t)

pub split_digits : (s : Text) → All IsDigit s → split dot s ≡ s ∷ []
unfolding split
split_digits [] h = refl
split_digits (c ∷ s) h = let e : (c == dot) ≡ false = ground arith in rw (e, split_digits s h.1)

pub split_at_dot :
    (s t : Text) → All IsDigit s → All IsDigit t → split dot (s ++ dot ∷ t) ≡ s ∷ t ∷ []
unfolding split
split_at_dot [] t hs ht = rw (split_digits t ht)
split_at_dot (c ∷ s) t hs ht =
    let e : (c == dot) ≡ false = ground arith in rw (e, split_at_dot s t hs.1 ht)

-- An integer is one part, and the empty text is 0.
split_input_integer : (s : Text) → All IsDigit s → split_input s ≡ ok (or_zero s, [])
unfolding split_input or_zero
split_input_integer [] h = refl
split_input_integer (c ∷ s) h = rw (no_dots (c ∷ s) h)

split_input-dot :
    (s : Text) (c : ℕ) (t : Text)
    → All IsDigit s
    → All IsDigit (c ∷ t)
    → split_input (s ++ dot ∷ c ∷ t) ≡ ok (s, trim_zeros (c ∷ t))
unfolding split_input
split_input-dot [] c t hs ht = rw (split_at_dot [] (c ∷ t) hs ht)
split_input-dot (x ∷ s) c t hs ht = rw (a_dot (x ∷ s) (c ∷ t), split_at_dot (x ∷ s) (c ∷ t) hs ht)

module _ (bn : BigNumber) where
  open bn use {BN, value, of_digits}

  new_decimal_lem :
      (s : Text) (digits : ℕ)
      → s ≢ []
      → All IsDigit s
      → Returns bn (new_decimal bn s digits) (value_from 0 s) digits
  unfolding new_decimal
  new_decimal_lem s digits ne h =
      let text = is_digits_of_All s ne h in
      (
        record { atomics = of_digits s; fractional_digits = digits },
        rw text,
        record { atomics = bn.value-of_digits s text; digits_lem = refl },
      )

  value-parts :
      (whole f : Text) (digits : ℕ)
      → length f ≤ digits
      → value_from 0 (whole ++ pad_end f digits)
        ≡ value_from 0 whole * 10 ^ digits + value_from 0 (pad_end f digits)
  value-parts whole f digits fits =
      let size : length (pad_end f digits) ≡ digits = omega (
        arith,
        length-append f (replicate (digits - length f) b'0'),
        length-replicate {A = ℕ} (digits - length f) b'0',
      ) in
      value_from-append 0 whole (pad_end f digits)
      ∙ value_from-shift (value_from 0 whole) (pad_end f digits)
      ∙ ap (λ (t : ℕ). value_from 0 whole * 10 ^ t + value_from 0 (pad_end f digits)) size

  append-ne-nil : (s t : Text) → s ≢ [] → s ++ t ≢ []
  append-ne-nil [] t h = absurd (h refl)
  append-ne-nil (c ∷ s) t h = ground arith

  -- A text of digits with no separator, or the empty text for 0, is that whole number.
  pub from_user_input_integer :
      (s : Text) (digits : ℕ)
      → digits ≤ max_fractional_digits
      → All IsDigit s
      → Returns bn (from_user_input bn s (int (pos digits))) (value_from 0 s * 10 ^ digits) digits
  unfolding from_user_input verify_fractional_digits or_zero
  from_user_input_integer s digits fits h =
      let low : ltb max_fractional_digits digits ≡ false = ground arith in
      let enough : ltb digits 0 ≡ false = ground arith in
      let zeros : value_from 0 (pad_end [] digits) ≡ 0 =
        omega (arith, value_from-zeros 0 (digits - 0)) in
      let whole : value_from 0 (or_zero s ++ pad_end [] digits) ≡ value_from 0 s * 10 ^ digits =
        omega (arith, value-parts (or_zero s) [] digits (omega arith), or_zero_value s) in
      rw (low, All-good_digits s h, split_input_integer s h, enough, ← whole)
        (new_decimal_lem (or_zero s ++ pad_end [] digits) digits
          (append-ne-nil (or_zero s) _ (or_zero_ne s))
          (All-append IsDigit (or_zero s) _ (or_zero_digits s h) (IsDigit-zeros (digits - 0))))
    where
      or_zero_ne : (t : Text) → or_zero t ≢ []
      or_zero_ne [] = ground arith
      or_zero_ne (c ∷ t) = ground arith

      or_zero_digits : (t : Text) → All IsDigit t → All IsDigit (or_zero t)
      or_zero_digits [] k = omega arith
      or_zero_digits (c ∷ t) k = k

      or_zero_value :
          (t : Text) → value_from 0 (or_zero t) * 10 ^ digits ≡ value_from 0 t * 10 ^ digits
      or_zero_value [] = unfold value_from in refl
      or_zero_value (c ∷ t) = refl

  -- For up to 100 fractional digits, digits before one separator and one or more behind it are
  -- read exactly, as whole * 10^digits plus the fractional part padded to that many digits, if
  -- its significant digits fit; zeros at its end do not count. Something must stand before the
  -- separator, or one fractional digit be supported at least.
  pub from_user_input-dot :
      (s : Text) (c : ℕ) (t : Text) (digits : ℕ)
      → digits ≤ max_fractional_digits
      → All IsDigit s
      → All IsDigit (c ∷ t)
      → length (trim_zeros (c ∷ t)) ≤ digits
      → s ++ pad_end (trim_zeros (c ∷ t)) digits ≢ []
      → Returns bn
          (from_user_input bn (s ++ dot ∷ c ∷ t) (int (pos digits)))
          (value_from 0 s * 10 ^ digits + value_from 0 (pad_end (trim_zeros (c ∷ t)) digits))
          digits
  unfolding from_user_input verify_fractional_digits
  from_user_input-dot s c t digits fits hs ht short ne =
      let low : ltb max_fractional_digits digits ≡ false = ground arith in
      let f = trim_zeros (c ∷ t) in
      let enough : ltb digits (length f) ≡ false = ground arith in
      let good : has_good_characters (dot ∷ c ∷ t) ≡ true =
        unfold has_good_characters in All-good_digits (c ∷ t) ht in
      rw
        (
          low,
          all_good_append s (dot ∷ c ∷ t) (All-good_digits s hs) good,
          split_input-dot s c t hs ht,
          enough,
          ← value-parts s f digits short,
        )
        (new_decimal_lem (s ++ pad_end f digits) digits ne (
          All-append IsDigit s _ hs (
            All-append IsDigit f _ (All-trim_zeros (c ∷ t) ht)
              (IsDigit-zeros (digits - length f)))))

  -- Of digits with one separator among them, more significant fractional digits than are
  -- supported, up to 100, are refused, never rounded.
  pub from_user_input_too_long :
      (s : Text) (c : ℕ) (t : Text) (digits : ℕ)
      → digits ≤ max_fractional_digits
      → All IsDigit s
      → All IsDigit (c ∷ t)
      → digits < length (trim_zeros (c ∷ t))
      → from_user_input bn (s ++ dot ∷ c ∷ t) (int (pos digits))
        ≡ throws "Got more fractional digits than supported"
  unfolding from_user_input verify_fractional_digits
  from_user_input_too_long s c t digits fits hs ht long =
      let low : ltb max_fractional_digits digits ≡ false = ground arith in
      let more : ltb digits (length (trim_zeros (c ∷ t))) ≡ true = ground arith in
      let good : has_good_characters (dot ∷ c ∷ t) ≡ true =
        unfold has_good_characters in All-good_digits (c ∷ t) ht in
      rw (
        low,
        all_good_append s (dot ∷ c ∷ t) (All-good_digits s hs) good,
        split_input-dot s c t hs ht,
        more,
      )
