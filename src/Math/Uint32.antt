-- ===== src/Math/Uint32.antt =====
-- packages/math/src/integers.ts, class Uint32.
pub mod ByteOrder
pub mod Strings
mod Tests
use Prim.Native.String.{String}
use mathlib.Core.List.{reverse}
use cosmjs.Prelude.{
  ℕ, ◌+◌, ◌*◌, ◌/◌, ◌%◌, ◌^◌, ◌<◌, Bool, true, false, not, List, [], ◌∷◌, arith, ltb, ◌==◌,
  if◌then◌else◌, Text, Bytes, length, is_digits, to_decimal, Result, ok, throws, ◌>>=◌, ◌>>◌,
  throw_if,
}
use cosmjs.Prelude.Int.{ℤ, pos, negsuc}
use cosmjs.Math.Number.{Number, nan, infinite, fraction, large, int, parse_int}

pub data Endianess : Type 0 where
  be le : Endianess

pub record Uint32 : Type 0 where
  pub value : ℕ

-- The constructor.
unfoldable pub new_uint32 : Number → Result Uint32
new_uint32 nan = throws "Input is not a number"
new_uint32 infinite = throws "Input is not an integer"
new_uint32 fraction = throws "Input is not an integer"
new_uint32 (large negative) = throws "Input not in uint32 range"
new_uint32 (int (negsuc n)) = throws "Input not in uint32 range"
new_uint32 (int (pos n)) =
    if ltb 4294967295 n then throws "Input not in uint32 range" else ok (record { value = n })

-- The test that the loop of `fromBytes` makes of an element, and the byte that passes.
unfoldable pub check_byte : Number → Result ℕ
check_byte (int (pos n)) = if ltb 255 n then throws "Invalid value in byte" else ok n
check_byte x = throws "Invalid value in byte"

unfoldable pub check_bytes : List Number → Result Bytes
unfolding check_byte
check_bytes [] = ok []
check_bytes (x ∷ xs) = do b ← check_byte x; bs ← check_bytes xs; ok (b ∷ bs)

-- `beBytes[0] * 2 ** 24 + …`
unfoldable pub combine : Bytes → ℕ
combine (b0 ∷ b1 ∷ b2 ∷ b3 ∷ []) = b0 * 2 ^ 24 + b1 * 2 ^ 16 + b2 * 2 ^ 8 + b3
combine other = 0

abbrev pub be_bytes : Endianess → Bytes → Bytes
be_bytes be bytes = bytes
be_bytes le bytes = reverse bytes

unfoldable pub from_bytes : List Number → Endianess → Result Uint32
from_bytes xs endianess = do
  throw_if (not (length xs == 4)) "Invalid input length. Expected 4 bytes."
  bytes ← check_bytes xs
  new_uint32 (int (pos (combine (be_bytes endianess bytes))))

unfoldable pub from_string : Text → Result Uint32
from_string s = do throw_if (not (is_digits s)) "Invalid string format"; new_uint32 (parse_int s)

-- `Math.floor(data / 2 ** k) & 0xff`
abbrev pub byte_at : ℕ → ℕ → ℕ
byte_at n k = n / 2 ^ k % 256

unfoldable pub to_bytes_big_endian : Uint32 → Bytes
to_bytes_big_endian u =
    byte_at u.value 24 ∷ byte_at u.value 16 ∷ byte_at u.value 8 ∷ byte_at u.value 0 ∷ []

unfoldable pub to_bytes_little_endian : Uint32 → Bytes
to_bytes_little_endian u =
    byte_at u.value 0 ∷ byte_at u.value 8 ∷ byte_at u.value 16 ∷ byte_at u.value 24 ∷ []

unfoldable pub to_string : Uint32 → Text
to_string u = to_decimal u.value

abbrev pub IsUint32 : Uint32 → Type 0
IsUint32 u = u.value < 2 ^ 32
