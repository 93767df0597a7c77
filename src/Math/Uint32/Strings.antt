-- ===== src/Math/Uint32/Strings.antt =====
-- Uint32 to decimal text and back.
use cosmjs.Prelude.{
  ℕ, ◌≡◌, ◌↔◌, inl, inr, true, arith, Text, is_digits, value_from, to_decimal, value-to_decimal,
  is_digits-to_decimal, ok, Bool-cases,
}
use cosmjs.Math.Number.{number_of, parse_int}
use cosmjs.Math.Uint32.{Uint32, IsUint32, new_uint32, from_string, to_string}

new_uint32-number_of :
    (n : ℕ) (u : Uint32) → (new_uint32 (number_of n) ≡ ok u) ↔ ((u.value ≡ n) × IsUint32 u)
unfolding new_uint32 number_of
new_uint32-number_of n u = (λ h. ground arith, λ h. ground arith)

-- `Uint32.fromString` accepts exactly the texts of one or more decimal digits whose value is
-- below 2^32, leading zeros allowed, and returns that value.
pub from_string_iff :
    (s : Text) (u : Uint32)
    → (from_string s ≡ ok u) ↔ ((is_digits s ≡ true) × (u.value ≡ value_from 0 s) × IsUint32 u)
unfolding from_string parse_int
from_string_iff s u = (to, from)
  where
    to : from_string s ≡ ok u → (is_digits s ≡ true) × (u.value ≡ value_from 0 s) × IsUint32 u
    to h = elim (Bool-cases (is_digits s)) [
      | inl good ↦
          let p = (new_uint32-number_of (value_from 0 s) u).0 (rw good at h) in (good, p.0, p.1)
      | inr bad ↦ absurd (ground arith)
    ]

    from : (is_digits s ≡ true) × (u.value ≡ value_from 0 s) × IsUint32 u → from_string s ≡ ok u
    from (good, same, fits) = rw good ((new_uint32-number_of (value_from 0 s) u).1 (same, fits))

-- A Uint32 in range is read back from its decimal text.
pub from_string-to_string : (u : Uint32) → IsUint32 u → from_string (to_string u) ≡ ok u
unfolding to_string
from_string-to_string u h =
    (from_string_iff (to_decimal u.value) u).1
      (is_digits-to_decimal u.value, ground (arith, value-to_decimal u.value), h)
