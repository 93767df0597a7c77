-- ===== src/Math/Uint32/Tests.antt =====
-- Uint32 at concrete inputs.
use cosmjs.Prelude.{◌≡◌, ◌↔◌, refl, true, [], ◌∷◌, arith, codes, is_digits, value_from, ok, throws}
use cosmjs.Math.Number.{number_of, parse_int}
use cosmjs.Math.Uint32.{Uint32, IsUint32, be, le, from_bytes, from_string, to_string}
use cosmjs.Math.Uint32.ByteOrder.{numbers, to_bytes, from_bytes-to_bytes, to_bytes-from_bytes}
use cosmjs.Math.Uint32.Strings.{from_string_iff, from_string-to_string}

abbrev sample : Uint32
sample = record { value = 0x8abcdef1 }

from_string_max : from_string (codes "4294967295") ≡ ok (record { value = 4294967295 })
unfolding from_string value_from parse_int number_of cosmjs.Math.Uint32.new_uint32
from_string_max = refl

from_string_above : from_string (codes "4294967296") ≡ throws "Input not in uint32 range"
unfolding from_string value_from parse_int number_of cosmjs.Math.Uint32.new_uint32
from_string_above = refl

from_bytes-to_bytes_example : from_bytes (numbers (to_bytes le sample)) le ≡ ok sample
from_bytes-to_bytes_example = from_bytes-to_bytes le sample (omega arith)

to_bytes-from_bytes_example :
    (u : Uint32) × (from_bytes (numbers (1 ∷ 2 ∷ 3 ∷ 255 ∷ [])) be ≡ ok u)
    × (to_bytes be u ≡ 1 ∷ 2 ∷ 3 ∷ 255 ∷ [])
to_bytes-from_bytes_example = to_bytes-from_bytes be 1 2 3 255 (omega arith)

from_string_iff_example : (from_string (codes "007") ≡ ok sample) ↔ (
    (is_digits (codes "007") ≡ true)
    × (sample.value ≡ value_from 0 (codes "007"))
    × IsUint32 sample)
from_string_iff_example = from_string_iff (codes "007") sample

from_string-to_string_example : from_string (to_string sample) ≡ ok sample
from_string-to_string_example = from_string-to_string sample (omega arith)
