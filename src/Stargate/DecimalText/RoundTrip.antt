-- ===== src/Stargate/DecimalText/RoundTrip.antt =====
-- The text of a decimal in Amino JSON is read back.
use mathlib.Core.Path.{subst}
use native.Mathlib.Nat.{mod-lt, div-add-mod'}
use cosmjs.Prelude.{
  ℕ, ◌+◌, ◌*◌, ◌/◌, ◌%◌, ◌^◌, ◌<◌, ◌≡◌, refl, ap, ◌∙◌, ◌≢◌, inl, inr, [], ◌∷◌, ◌++◌, arith, ◌==◌,
  Bool-cases, length, replicate, All, ok, Text, IsDigit, split, value_from, to_decimal,
  value-to_decimal, to_decimal-IsDigit, to_decimal-ne-nil, is_digits-to_decimal, append_nil_left,
}
use cosmjs.Prelude.Int.{pos}
use cosmjs.Math.Number.{int}
use cosmjs.Math.BigNumber.{BigNumber}
use cosmjs.Math.Decimal.{
  Decimal, from_atomics, to_string, trim_zeros, pad_start, pad_end, dot, new_decimal,
  verify_fractional_digits,
}
use cosmjs.Math.Decimal.Arithmetic.{Is, Returns, rest_zero_lem, rest_lem, whole_lem}
use cosmjs.Math.Decimal.Digits.{one-le-ten_pow, IsDigit-zeros, value_from-zeros}
use cosmjs.Math.Decimal.Trim.{pad_end-trim_zeros, length-trim_zeros}
use cosmjs.Math.Decimal.Parse.{from_user_input-dot, split_digits, split_at_dot}
use cosmjs.Math.Decimal.RoundTrip.{fractional_part}
use cosmjs.Stargate.DecimalText.{json_of_parts, proto_decimal_to_json, json_decimal_to_proto}

-- Eighteen digits that spell a number below 10^18.
abbrev pub IsFraction : Text → ℕ → Type 0
IsFraction p r = (length p ≡ 18) × All IsDigit p × (value_from 0 p ≡ r)

pub from_atomics-to_decimal :
    (bn : BigNumber) (m : ℕ) → Returns bn (from_atomics bn (to_decimal m) (int (pos 18))) m 18
unfolding from_atomics new_decimal verify_fractional_digits
from_atomics-to_decimal bn m = (
  record { atomics = bn.of_digits (to_decimal m); fractional_digits = 18 },
  rw (is_digits-to_decimal m) refl,
  record {
    atomics =
        bn.value-of_digits (to_decimal m) (is_digits-to_decimal m) ∙ ap pos (value-to_decimal m);
    digits_lem = refl;
  },
)

-- The whole part stands before the separator, and all eighteen digits behind it.
pub json_of_parts-to_string :
    (bn : BigNumber) (d : Decimal bn.BN) (m : ℕ)
    → Is bn d m 18
    → (p : Text) × (json_of_parts (split dot (to_string bn d))
        ≡ to_decimal (m / 10 ^ 18) ++ dot ∷ p)
      × IsFraction p (m % 10 ^ 18)
unfolding to_string
json_of_parts-to_string bn d m h =
    let whole = to_decimal (m / 10 ^ 18) in
    let is_whole = to_decimal-IsDigit (m / 10 ^ 18) in
    elim (Bool-cases (m % 10 ^ 18 == 0)) [
      | inl z ↦
          let zero_rest : 0 ≡ m % 10 ^ 18 = ground arith in
          (
            replicate 18 b'0',
            rw
                (
                  rest_zero_lem bn d m 18 h,
                  z,
                  bn.print_lem _ _ (whole_lem bn d m 18 h),
                  split_digits whole is_whole,
                )
                refl,
            (refl, IsDigit-zeros 18, value_from-zeros 0 18 ∙ zero_rest),
          )
      | inr nz ↦
          let r = m % 10 ^ 18 in
          let lt : r < 10 ^ 18 = mod-lt m (one-le-ten_pow 18) in
          let (trimmed, joined, is_digit_p, size, value) = fractional_part r 18 (ground arith) lt in
          (
            pad_start (to_decimal r) 18,
            rw
                (
                  rest_zero_lem bn d m 18 h,
                  nz,
                  bn.print_lem _ _ (whole_lem bn d m 18 h),
                  bn.print_lem _ _ (rest_lem bn d m 18 h),
                  h.digits_lem,
                  split_at_dot whole (trim_zeros (pad_start (to_decimal r) 18)) is_whole trimmed,
                  joined,
                )
                refl,
            (size, is_digit_p, value),
          )
    ]

-- A whole part and eighteen digits are read as the atomics.
pub json_decimal_to_proto_lem :
    (bn : BigNumber) (w r : ℕ) (p : Text)
    → IsFraction p r
    → json_decimal_to_proto bn (to_decimal w ++ dot ∷ p) ≡ ok (to_decimal (w * 10 ^ 18 + r))
json_decimal_to_proto_lem bn w r [] (size, h, value) = absurd (omega arith)
json_decimal_to_proto_lem bn w r (c ∷ p) (size, h, value) =
    let kept : pad_end (trim_zeros (c ∷ p)) 18 ≡ c ∷ p =
      subst (λ (n : ℕ). pad_end (trim_zeros (c ∷ p)) n ≡ c ∷ p) size (pad_end-trim_zeros (c ∷ p)) in
    let (d, parsed, is_d) =
      from_user_input-dot bn (to_decimal w) c p 18 (omega arith) (to_decimal-IsDigit w) h
        (omega (arith, length-trim_zeros (c ∷ p), size))
        (λ e.
          to_decimal-ne-nil w
            (append_nil_left (to_decimal w) (pad_end (trim_zeros (c ∷ p)) 18) e)) in
    let total : value_from 0 (to_decimal w) * 10 ^ 18
          + value_from 0 (pad_end (trim_zeros (c ∷ p)) 18)
        ≡ w * 10 ^ 18 + r =
      rw (kept, value, value-to_decimal w) refl in
    unfold json_decimal_to_proto in rw (parsed, bn.print_lem d.atomics _ is_d.atomics, total) refl

pub json_text :
    (bn : BigNumber) (m : ℕ)
    → (s : Text) × (proto_decimal_to_json bn (to_decimal m) ≡ ok s)
      × (json_decimal_to_proto bn s ≡ ok (to_decimal m))
      × (s ≢ [])
unfolding proto_decimal_to_json
json_text bn m =
    let (d, parsed, is_d) = from_atomics-to_decimal bn m in
    let (p, shape, fraction) = json_of_parts-to_string bn d m is_d in
    let total : m / 10 ^ 18 * 10 ^ 18 + m % 10 ^ 18 ≡ m = div-add-mod' m (10 ^ 18) in
    (
      to_decimal (m / 10 ^ 18) ++ dot ∷ p,
      rw (parsed, shape) refl,
      json_decimal_to_proto_lem bn (m / 10 ^ 18) (m % 10 ^ 18) p fraction
          ∙ ap (λ (n : ℕ). ok (to_decimal n)) total,
      λ e. to_decimal-ne-nil (m / 10 ^ 18) (append_nil_left (to_decimal (m / 10 ^ 18)) (dot ∷ p) e),
    )

-- The atomics of a decimal with 18 digits, in decimal notation, have a text in Amino JSON, which is
-- read back as the same atomics.
pub json_decimal_to_proto-proto_decimal_to_json :
    (bn : BigNumber) (m : ℕ)
    → (s : Text) × (proto_decimal_to_json bn (to_decimal m) ≡ ok s)
      × (json_decimal_to_proto bn s ≡ ok (to_decimal m))
json_decimal_to_proto-proto_decimal_to_json bn m =
    let (s, there, back, nonempty) = json_text bn m in (s, there, back)
