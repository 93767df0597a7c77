-- ===== src/Crypto/Signature/Tests.antt =====
-- A signature at concrete bytes.
use cosmjs.Prelude.{◌≤◌, ◌≡◌, refl, ◌↔◌, [], ◌∷◌, ◌++◌, arith, length, replicate, ok, Bytes}
use cosmjs.Crypto.Signature.{
  Secp256k1Signature, new_signature, from_fixed_length, to_fixed_length, from_der, to_der,
  trim_leading_null_bytes, der_integer,
}
use cosmjs.Prelude.Int.{pos}
use cosmjs.Math.Number.{int}
use cosmjs.Crypto.Signature.Extended.{
  new_extended, new_extended_iff, extended_from_fixed_length, extended_to_fixed_length,
  extended_round_trip,
}
use cosmjs.Crypto.Signature.Numbers.{IsUnpadded}
use cosmjs.Crypto.Signature.Fixed.{
  IsValid, new_signature_sound, from_fixed_length-to_fixed_length,
  to_fixed_length-from_fixed_length,
}
use cosmjs.Crypto.Signature.Der.{from_der-to_der}

abbrev small : Secp256k1Signature
small = record { r = 0x81 ∷ 5 ∷ []; s = 7 ∷ [] }

small-IsValid : IsValid small
small-IsValid = (ground arith, ground arith)

small_der : to_der small ≡ 0x30 ∷ 8 ∷ 2 ∷ 3 ∷ 0 ∷ 0x81 ∷ 5 ∷ 2 ∷ 1 ∷ 7 ∷ []
unfolding to_der der_integer
small_der = refl

from_der-to_der_example : from_der (to_der small) ≡ ok small
from_der-to_der_example = from_der-to_der small small-IsValid

from_fixed_length-to_fixed_length_example :
    (bytes : Bytes) × (to_fixed_length small ≡ ok bytes)
    × (length bytes ≡ 64)
    × (from_fixed_length bytes ≡ ok small)
from_fixed_length-to_fixed_length_example = from_fixed_length-to_fixed_length small small-IsValid

abbrev small_fixed : Bytes
small_fixed = replicate 30 0 ++ (0x81 ∷ 5 ∷ []) ++ replicate 31 0 ++ 7 ∷ []

small_read : from_fixed_length small_fixed ≡ ok small
unfolding from_fixed_length trim_leading_null_bytes new_signature
small_read = refl

to_fixed_length-from_fixed_length_example : to_fixed_length small ≡ ok small_fixed
to_fixed_length-from_fixed_length_example =
    to_fixed_length-from_fixed_length small_fixed small small_read

small_new : new_signature (0x81 ∷ 5 ∷ []) (7 ∷ []) ≡ ok small
unfolding new_signature
small_new = refl

new_signature_sound_example :
    IsUnpadded (0x81 ∷ 5 ∷ [])
    × IsUnpadded (7 ∷ [])
    × (small ≡ record { r = 0x81 ∷ 5 ∷ []; s = 7 ∷ [] })
new_signature_sound_example = new_signature_sound (0x81 ∷ 5 ∷ []) (7 ∷ []) small small_new

new_extended_iff_example :
    (new_extended (0x81 ∷ 5 ∷ []) (7 ∷ []) (int (pos 4))
      ≡ ok (record { signature = small; recovery = 4 }))
    ↔ ((small ≡ record { r = 0x81 ∷ 5 ∷ []; s = 7 ∷ [] })
        × IsValid small
        × (int (pos 4) ≡ int (pos 4))
        × (4 ≤ 4))
new_extended_iff_example =
    new_extended_iff (0x81 ∷ 5 ∷ []) (7 ∷ []) (int (pos 4))
      (record { signature = small; recovery = 4 })

extended_round_trip_example :
    (bytes : Bytes) × (extended_to_fixed_length (record { signature = small; recovery = 1 })
      ≡ ok bytes)
    × (length bytes ≡ 65)
    × (extended_from_fixed_length bytes ≡ ok (record { signature = small; recovery = 1 }))
extended_round_trip_example =
    extended_round_trip (record { signature = small; recovery = 1 }) small-IsValid (omega arith)
