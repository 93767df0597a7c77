-- ===== src/Math/Uint32/ByteOrder.antt =====
-- Uint32 to bytes and back, in both orders.

use cosmjs.Prelude.{ℕ, ◌^◌, ◌<◌, ◌≡◌, refl, List, [], ◌∷◌, map, arith, All, ok, Bytes, IsByte}
use cosmjs.Prelude.Int.{pos}
use cosmjs.Math.Number.{Number, int}
use cosmjs.Math.Uint32.{
  byte_at, Endianess, be, le, Uint32, IsUint32, new_uint32, check_bytes, combine, from_bytes,
  to_bytes_big_endian, to_bytes_little_endian,
}

-- A byte array as an array of numbers.
abbrev pub numbers : Bytes → List Number
numbers = map (λ b. int (pos b))

-- Whatever the constructor returns is in range.
pub new_uint32-IsUint32 : (x : Number) (u : Uint32) → new_uint32 x ≡ ok u → IsUint32 u
unfolding new_uint32
new_uint32-IsUint32 (int (pos n)) u h = ground arith
new_uint32-IsUint32 x u h = ground arith

pub check_bytes_lem : (bs : Bytes) → All IsByte bs → check_bytes (numbers bs) ≡ ok bs
unfolding check_bytes
check_bytes_lem [] h = refl
check_bytes_lem (b ∷ bs) h = ground (arith, check_bytes_lem bs h.1)

abbrev pub to_bytes : Endianess → Uint32 → Bytes
to_bytes be u = to_bytes_big_endian u
to_bytes le u = to_bytes_little_endian u

module _ (b0 b1 b2 b3 : ℕ) (h : All IsByte (b0 ∷ b1 ∷ b2 ∷ b3 ∷ [])) where
  combine-lt : combine (b0 ∷ b1 ∷ b2 ∷ b3 ∷ []) < 2 ^ 32
  unfolding combine
  combine-lt = omega arith

  byte_at_24 : byte_at (combine (b0 ∷ b1 ∷ b2 ∷ b3 ∷ [])) 24 ≡ b0
  unfolding combine
  byte_at_24 = omega arith

  byte_at_16 : byte_at (combine (b0 ∷ b1 ∷ b2 ∷ b3 ∷ [])) 16 ≡ b1
  unfolding combine
  byte_at_16 = omega arith

  byte_at_8 : byte_at (combine (b0 ∷ b1 ∷ b2 ∷ b3 ∷ [])) 8 ≡ b2
  unfolding combine
  byte_at_8 = omega arith

  byte_at_0 : byte_at (combine (b0 ∷ b1 ∷ b2 ∷ b3 ∷ [])) 0 ≡ b3
  unfolding combine
  byte_at_0 = omega arith

new_uint32_lem : (n : ℕ) → n < 2 ^ 32 → new_uint32 (int (pos n)) ≡ ok (record { value = n })
unfolding new_uint32
new_uint32_lem n h = ground arith

-- Any four bytes are accepted in either order, and the number is written again as these bytes.
pub to_bytes-from_bytes :
    (endianess : Endianess) (b0 b1 b2 b3 : ℕ)
    → All IsByte (b0 ∷ b1 ∷ b2 ∷ b3 ∷ [])
    → (u : Uint32) × (from_bytes (numbers (b0 ∷ b1 ∷ b2 ∷ b3 ∷ [])) endianess ≡ ok u)
      × (to_bytes endianess u ≡ b0 ∷ b1 ∷ b2 ∷ b3 ∷ [])
unfolding from_bytes to_bytes_big_endian to_bytes_little_endian
to_bytes-from_bytes be b0 b1 b2 b3 h = (
  record { value = combine (b0 ∷ b1 ∷ b2 ∷ b3 ∷ []) },
  rw (check_bytes_lem (b0 ∷ b1 ∷ b2 ∷ b3 ∷ []) h) (new_uint32_lem _ (combine-lt b0 b1 b2 b3 h)),
  rw (
    byte_at_24 b0 b1 b2 b3 h,
    byte_at_16 b0 b1 b2 b3 h,
    byte_at_8 b0 b1 b2 b3 h,
    byte_at_0 b0 b1 b2 b3 h,
  ),
)
to_bytes-from_bytes le b0 b1 b2 b3 h =
    let k : All IsByte (b3 ∷ b2 ∷ b1 ∷ b0 ∷ []) = omega arith in
    (
      record { value = combine (b3 ∷ b2 ∷ b1 ∷ b0 ∷ []) },
      rw (check_bytes_lem (b0 ∷ b1 ∷ b2 ∷ b3 ∷ []) h) (new_uint32_lem _ (combine-lt b3 b2 b1 b0 k)),
      rw (
        byte_at_24 b3 b2 b1 b0 k,
        byte_at_16 b3 b2 b1 b0 k,
        byte_at_8 b3 b2 b1 b0 k,
        byte_at_0 b3 b2 b1 b0 k,
      ),
    )

-- The bytes of a number below 2^32 add up to it.
combine-bytes :
    (n : ℕ)
    → n < 2 ^ 32
    → combine (byte_at n 24 ∷ byte_at n 16 ∷ byte_at n 8 ∷ byte_at n 0 ∷ []) ≡ n
unfolding combine
combine-bytes n h = omega arith

-- A Uint32 in range is read back from its four bytes, in either byte order.
pub from_bytes-to_bytes :
    (endianess : Endianess) (u : Uint32)
    → IsUint32 u
    → from_bytes (numbers (to_bytes endianess u)) endianess ≡ ok u
unfolding from_bytes to_bytes_big_endian to_bytes_little_endian
from_bytes-to_bytes be u h =
    rw (check_bytes_lem (to_bytes be u) (omega arith), combine-bytes u.value h)
      (new_uint32_lem u.value h)
from_bytes-to_bytes le u h =
    rw (check_bytes_lem (to_bytes le u) (omega arith), combine-bytes u.value h)
      (new_uint32_lem u.value h)
