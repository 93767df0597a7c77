-- ===== src/Encoding/Base64/Tests.antt =====
-- The base64 format test at concrete texts, and the round trip at the stand-in.
use cosmjs.Prelude.{◌≡◌, refl, true, false, [], ◌∷◌, ok, codes, arith}
use cosmjs.Encoding.Base64.{is_base64_format, native, to_base64, from_base64, from_base64-to_base64}

formats :
    (is_base64_format (codes "Zm9vYg==") ≡ true) × (is_base64_format (codes "Zm9=vYg") ≡ false)
unfolding is_base64_format
formats = (refl, refl)

from_base64-to_base64_example :
    from_base64 native (to_base64 native (1 ∷ 200 ∷ [])) ≡ ok (1 ∷ 200 ∷ [])
from_base64-to_base64_example = from_base64-to_base64 native (1 ∷ 200 ∷ []) (omega arith)
