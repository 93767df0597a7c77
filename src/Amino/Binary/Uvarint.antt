-- ===== src/Amino/Binary/Uvarint.antt =====
-- Lengths and thresholds: one byte, up to 127.
use native.Mathlib.Decide.{dec_le}
use cosmjs.Prelude.{
  ℕ, ◌≤◌, ◌≡◌, inl, inr, false, [], ◌∷◌, arith, ltb, if◌then◌else◌, Result-cases, ok, throws, Bytes,
  to_decimal, value-to_decimal, is_digits-to_decimal,
}
use cosmjs.Math.Number.{max_safe_integer}
use cosmjs.Math.Int53.{uint53, uint53_from_string}
use cosmjs.Math.Int53.Strings.{uint53_from_string_iff, uint53_from_string_above}
use cosmjs.Amino.Binary.{encode_uvarint, decode_uvarint}

parsed : (n : ℕ) → n ≤ max_safe_integer → uint53_from_string (to_decimal n) ≡ ok (uint53 n)
parsed n h =
    (uint53_from_string_iff (to_decimal n) n (is_digits-to_decimal n)).1 (value-to_decimal n, h)

pub encode_uvarint_lem : (n : ℕ) → n ≤ 127 → encode_uvarint (to_decimal n) ≡ ok (n ∷ [])
unfolding encode_uvarint
encode_uvarint_lem n h =
    let small : ltb 127 n ≡ false = ground arith in rw (parsed n (omega arith), small)

-- What `encodeUvarint` returns for a natural number is this number in one byte, at most 127.
pub encode_uvarint_sound :
    (n : ℕ) (bs : Bytes) → encode_uvarint (to_decimal n) ≡ ok bs → (bs ≡ n ∷ []) × (n ≤ 127)
unfolding encode_uvarint
encode_uvarint_sound n bs h = elim (dec_le n max_safe_integer) [
  | yes p ↦ small (rw (parsed n p) at h)
  | no p ↦ elim (Result-cases (uint53_from_string (to_decimal n))) [
    | inl (u, e) ↦ absurd (
        uint53_from_string_above (to_decimal n) u (is_digits-to_decimal n)
          (rw (value-to_decimal n) (omega arith)) e)
    | inr (m, e) ↦ absurd (ground arith)
  ]
]
  where
    small :
        (if ltb 127 n then throws "Encoding numbers > 127 is not supported here." else ok (n ∷ []))
          ≡ ok bs
        → (bs ≡ n ∷ []) × (n ≤ 127)
    small e = ground arith

pub decode_uvarint_lem : (n : ℕ) (rest : Bytes) → n ≤ 127 → decode_uvarint (n ∷ rest) ≡ ok n
unfolding decode_uvarint
decode_uvarint_lem n rest h = ground arith
