-- ===== src/Math/Uint64/Tests.antt =====
-- Uint64 at concrete numbers.
use cosmjs.Prelude.{◌^◌, ◌≤◌, ◌≡◌, refl, ◌⊎◌, [], ◌∷◌, arith, ok, throws, Bytes, codes, value_from}
use cosmjs.Prelude.Int.{ℤ, pos}
use cosmjs.Math.BigNumber.{native}
use cosmjs.Math.Uint32.{be, le}
use cosmjs.Math.Uint32.ByteOrder.{numbers}
use cosmjs.Math.Uint64.{Uint64, from_bytes, to_bytes_big_endian, from_string, to_string}
use cosmjs.Math.Uint64.ByteOrder.{
  IsUint64, to_bytes, uint64_from_bytes-to_bytes, uint64_to_bytes-from_bytes,
}
use cosmjs.Math.Uint64.Strings.{uint64_from_string_lem, uint64_from_string-to_string}

abbrev large_one : Uint64 ℤ
large_one = record { number = pos 18446744073709551610 }

large_one-IsUint64 : IsUint64 native large_one.number 18446744073709551610
large_one-IsUint64 = (refl, omega arith)

uint64_from_bytes-to_bytes_example :
    (v : Uint64 ℤ) × (from_bytes native (numbers (to_bytes native le large_one)) le ≡ ok v)
    × (v.number ≡ pos 18446744073709551610)
uint64_from_bytes-to_bytes_example =
    uint64_from_bytes-to_bytes native le large_one 18446744073709551610 large_one-IsUint64

abbrev eight_bytes : Bytes
eight_bytes = 255 ∷ 1 ∷ 0 ∷ 0 ∷ 7 ∷ 0 ∷ 0 ∷ 9 ∷ []

uint64_to_bytes-from_bytes_example :
    (u : Uint64 ℤ) × (from_bytes native (numbers eight_bytes) be ≡ ok u)
    × (to_bytes_big_endian native u ≡ eight_bytes)
uint64_to_bytes-from_bytes_example =
    uint64_to_bytes-from_bytes native eight_bytes refl (omega arith)

uint64_from_string_lem_example :
    ((u : Uint64 ℤ) × (from_string native (codes "0099") ≡ ok u)
      × IsUint64 native u.number (value_from 0 (codes "0099")))
    ⊎ ((2 ^ 64 ≤ value_from 0 (codes "0099"))
        × (from_string native (codes "0099") ≡ throws "Input exceeds uint64 range"))
uint64_from_string_lem_example = uint64_from_string_lem native (codes "0099") refl

uint64_from_string-to_string_example :
    (v : Uint64 ℤ) × (from_string native (to_string native large_one) ≡ ok v)
    × (v.number ≡ pos 18446744073709551610)
uint64_from_string-to_string_example =
    uint64_from_string-to_string native large_one 18446744073709551610 large_one-IsUint64
