-- ===== src/Crypto/Signature.antt =====
-- packages/crypto/src/secp256k1signature.ts. A `Uint8Array` is a list of numbers below 256.
pub mod Numbers
pub mod Fixed
pub mod Der
pub mod Extended
mod Tests
use Prim.Native.String.{String}
use cosmjs.Prelude.{
  ℕ, zero, suc, ◌+◌, ◌-◌, ◌%◌, Bool, true, false, not, ◌||◌, List, [], ◌∷◌, ◌++◌, ltb, leb, ◌==◌,
  if◌then◌else◌, Bytes, Option, none, some, get_elem?, length, take, drop, slice, replicate, Result,
  ok, throws, ◌>>=◌, ◌>>◌, throw_if,
}

-- The bytes behind the leading zeros.
unfoldable pub trim_leading_null_bytes : Bytes → Bytes
trim_leading_null_bytes [] = []
trim_leading_null_bytes (b ∷ bs) = if b == 0 then trim_leading_null_bytes bs else b ∷ bs

abbrev pub der_tag_integer : ℕ
der_tag_integer = 0x02

pub record Secp256k1Signature : Type 0 where
  pub r : Bytes
  pub s : Bytes

-- `x.length > 32 || x.length === 0 || x[0] === 0x00`
unfoldable pub is_bad_integer : Bytes → Bool
is_bad_integer [] = true
is_bad_integer (b ∷ bs) = ltb 32 (length (b ∷ bs)) || b == 0

-- The constructor.
unfoldable pub new_signature : Bytes → Bytes → Result Secp256k1Signature
unfolding is_bad_integer
new_signature r s = do
  throw_if (is_bad_integer r) "Unsigned integer r must be encoded as unpadded big endian."
  throw_if (is_bad_integer s) "Unsigned integer s must be encoded as unpadded big endian."
  ok (record { r = r; s = s })

unfoldable pub from_fixed_length : Bytes → Result Secp256k1Signature
from_fixed_length bytes = do
  throw_if (not (length bytes == 64))
      "Got invalid data length. Expected 2x 32 bytes for the pair (r, s)"
  new_signature (trim_leading_null_bytes (slice bytes 0 32))
      (trim_leading_null_bytes (slice bytes 32 64))

-- `r(length)` and `s(length)`, with a length.
pad_to : ℕ → String → Bytes → Result Bytes
pad_to n message x = do throw_if (ltb n (length x)) message; ok (replicate (n - length x) 0 ++ x)

unfoldable pub r_padded : ℕ → Secp256k1Signature → Result Bytes
unfolding pad_to
r_padded n sig = pad_to n "Length too small to hold parameter r" sig.r

unfoldable pub s_padded : ℕ → Secp256k1Signature → Result Bytes
unfolding pad_to
s_padded n sig = pad_to n "Length too small to hold parameter s" sig.s

unfoldable pub to_fixed_length : Secp256k1Signature → Result Bytes
to_fixed_length sig = do r ← r_padded 32 sig; s ← s_padded 32 sig; ok (r ++ s)

-- `data[pos++]` compared with a number: `undefined`, out of range, is equal to no number.
abbrev pub is_byte : Option ℕ → ℕ → Bool
is_byte none b = false
is_byte (some x) b = x == b

-- `x >= 0x80`, false on `undefined`
abbrev pub is_long : Option ℕ → Bool
is_long none = false
is_long (some x) = leb 0x80 x

-- `pos + length` with an `undefined` length is NaN, and then `slice` is empty.
abbrev pub count_of : Option ℕ → ℕ
count_of none = 0
count_of (some n) = n

-- One INTEGER of `fromDer`: its bytes, and what follows them. `bytes` is `data` from `pos` on.
unfoldable pub read_integer : Bytes → Result (Bytes × Bytes)
read_integer bytes = do
  throw_if (not (is_byte (get_elem? bytes 0) der_tag_integer)) "INTEGER tag expected"
  throw_if (is_long (get_elem? bytes 1)) "Decoding length values above 127 not supported"
  let count = count_of (get_elem? bytes 1)
  ok (take count (drop 2 bytes), drop count (drop 2 bytes))

unfoldable pub from_der : Bytes → Result Secp256k1Signature
unfolding read_integer
from_der bytes = do
  throw_if (not (is_byte (get_elem? bytes 0) 0x30)) "Prefix 0x30 expected"
  throw_if (not (is_byte (get_elem? bytes 1) (length bytes - 2))) "Data length mismatch detected"
  (r, after_r) ← read_integer (drop 2 bytes)
  (s, _) ← read_integer after_r
  new_signature (trim_leading_null_bytes r) (trim_leading_null_bytes s)

-- A leading zero keeps an integer with its highest bit set from being read as negative.
unfoldable pub der_integer : Bytes → Bytes
der_integer [] = []
der_integer (b ∷ bs) = if leb 0x80 b then 0 ∷ b ∷ bs else b ∷ bs

-- `new Uint8Array([…])` keeps each length modulo 256.
unfoldable pub to_der : Secp256k1Signature → Bytes
to_der sig =
    let r = der_integer sig.r in
    let s = der_integer sig.s in
    let body = (der_tag_integer ∷ (length r % 256) ∷ r) ++ der_tag_integer ∷ (length s % 256) ∷ s in
    0x30 ∷ (length body % 256) ∷ body
