-- ===== src/Encoding/Ascii/Tests.antt =====
-- Runs of `toAscii` and `fromAscii`, and the theorems at concrete texts.
use cosmjs.Prelude.{◌≡◌, refl, ◌↔◌, ◌∷◌, [], All, ok, throws, codes}
use cosmjs.Encoding.Ascii.{to_ascii, from_ascii, IsPrintable, to_ascii_iff, from_ascii-to_ascii}

to_ascii_abc : to_ascii (codes "abc") ≡ ok (0x61 ∷ 0x62 ∷ 0x63 ∷ [])
unfolding to_ascii
to_ascii_abc = refl

to_ascii_tab :
    to_ascii (codes "a\t") ≡ throws "Cannot encode character that is out of printable ASCII range"
unfolding to_ascii
to_ascii_tab = refl

to_ascii_iff_example :
    (to_ascii (codes "hi") ≡ ok (codes "hi"))
    ↔ ((codes "hi" ≡ codes "hi") × All IsPrintable (codes "hi"))
to_ascii_iff_example = to_ascii_iff (codes "hi") (codes "hi")

from_ascii-to_ascii_example : from_ascii (0x61 ∷ 0x62 ∷ 0x63 ∷ []) ≡ ok (codes "abc")
from_ascii-to_ascii_example =
    from_ascii-to_ascii (codes "abc") (0x61 ∷ 0x62 ∷ 0x63 ∷ []) to_ascii_abc
