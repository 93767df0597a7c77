-- ===== src/Math/Uint64.antt =====
-- packages/math/src/integers.ts, class Uint64, over bn.js as a parameter.
pub mod ByteOrder
pub mod Strings
mod Tests
use mathlib.Core.List.{reverse}
use cosmjs.Prelude.{
  not, List, ◌==◌, length, Result, ◌>>=◌, ◌>>◌, throw_if, ok, throws, Text, Bytes, codes, is_digits,
}
use cosmjs.Prelude.Int.{ℤ, pos, negsuc}
use cosmjs.Math.Number.{Number, nan, infinite, fraction, large, int}
use cosmjs.Math.BigNumber.{BigNumber}
use cosmjs.Math.Uint32.{Endianess, be_bytes, check_bytes}

pub record Uint64 (B : Type 0) : Type 0 where
  pub number : B

module _ (bn : BigNumber) where
  open bn use {BN, of_digits, of_bytes, of_int, print, to_array, to_array_le, gt, is_neg}

  abbrev pub uint64_max_value : BN
  uint64_max_value = of_digits (codes "18446744073709551615")

  -- The private constructor.
  unfoldable pub new_uint64 : BN → Result (Uint64 BN)
  new_uint64 x = do
    throw_if (is_neg x) "Input is negative"
    throw_if (gt x uint64_max_value) "Input exceeds uint64 range"
    ok (record { number = x })

  unfoldable pub from_bytes : List Number → Endianess → Result (Uint64 BN)
  from_bytes xs endianess = do
    throw_if (not (length xs == 8)) "Invalid input length. Expected 8 bytes."
    bytes ← check_bytes xs
    new_uint64 (of_bytes (be_bytes endianess bytes))

  unfoldable pub from_string : Text → Result (Uint64 BN)
  from_string s = do throw_if (not (is_digits s)) "Invalid string format"; new_uint64 (of_digits s)

  -- `new BN(number)` throws on an integer beyond the safe range.
  unfoldable pub from_number : Number → Result (Uint64 BN)
  from_number nan = throws "Input is not a number"
  from_number infinite = throws "Input is not an integer"
  from_number fraction = throws "Input is not an integer"
  from_number (large negative) = throws "Input is not a safe integer"
  from_number (int z) = new_uint64 (of_int z)

  unfoldable pub to_bytes_big_endian : Uint64 BN → Bytes
  to_bytes_big_endian u = to_array u.number 8

  unfoldable pub to_bytes_little_endian : Uint64 BN → Bytes
  to_bytes_little_endian u = to_array_le u.number 8

  unfoldable pub to_string : Uint64 BN → Text
  to_string u = print u.number
