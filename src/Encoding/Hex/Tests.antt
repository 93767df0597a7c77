-- ===== src/Encoding/Hex/Tests.antt =====
-- Runs of `toHex` and `fromHex`, and the theorems at concrete inputs.
use cosmjs.Prelude.{◌≡◌, refl, ◌∷◌, [], ok, throws, codes, arith}
use cosmjs.Encoding.Hex.{to_hex, from_hex}
use cosmjs.Encoding.Hex.RoundTrip.{from_hex-to_hex}

to_hex_run : to_hex (0 ∷ 0x0f ∷ 0xa3 ∷ []) ≡ codes "000fa3"
unfolding to_hex
to_hex_run = refl

from_hex_upper : from_hex (codes "0fA3") ≡ ok (0x0f ∷ 0xa3 ∷ [])
unfolding from_hex
from_hex_upper = refl

from_hex_odd : from_hex (codes "123") ≡ throws "hex string length must be a multiple of 2"
unfolding from_hex
from_hex_odd = refl

from_hex_bad : from_hex (codes "0xyz") ≡ throws "hex string contains invalid characters"
unfolding from_hex
from_hex_bad = refl

from_hex-to_hex_example : from_hex (to_hex (0 ∷ 0xff ∷ [])) ≡ ok (0 ∷ 0xff ∷ [])
from_hex-to_hex_example = from_hex-to_hex (0 ∷ 0xff ∷ []) (omega arith)
