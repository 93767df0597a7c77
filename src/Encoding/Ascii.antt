-- ===== src/Encoding/Ascii.antt =====
-- packages/encoding/src/ascii.ts. A byte array is a list of numbers below 256.
mod Tests
use cosmjs.Prelude.{
  ℕ, ◌≤◌, ◌≡◌, refl, ◌↔◌, inl, inr, Bool, true, false, ◌||◌, List, [], ◌∷◌, arith, ltb, Text, Bytes,
  All, Result, ok, throws, ◌>>=◌, ◌>>◌, throw_if, is_ok, Result-cases,
}

out_of_range : ℕ → Bool
out_of_range c = ltb c 0x20 || ltb 0x7e c

unfoldable pub to_ascii : Text → Result Bytes
unfolding out_of_range
to_ascii [] = ok []
to_ascii (c ∷ s) = do
  throw_if (out_of_range c) "Cannot encode character that is out of printable ASCII range"
  out ← to_ascii s
  ok (c ∷ out)

unfoldable pub from_ascii : Bytes → Result Text
unfolding out_of_range
from_ascii [] = ok []
from_ascii (b ∷ bs) = do
  throw_if (out_of_range b) "Cannot decode character that is out of printable ASCII range"
  out ← from_ascii bs
  ok (b ∷ out)

abbrev pub IsPrintable : ℕ → Type 0
IsPrintable c = (0x20 ≤ c) × (c ≤ 0x7e)

to_ascii_sound : (s : Text) (bs : Bytes) → to_ascii s ≡ ok bs → (bs ≡ s) × All IsPrintable s
unfolding to_ascii
to_ascii_sound [] bs h = ground arith
to_ascii_sound (c ∷ s) bs h = elim (Result-cases (to_ascii s)) [
  | inl (out, e) ↦ ground (arith, to_ascii_sound s out e)
  | inr (m, e) ↦ ground arith
]

to_ascii_complete : (s : Text) → All IsPrintable s → to_ascii s ≡ ok s
unfolding to_ascii
to_ascii_complete [] h = refl
to_ascii_complete (c ∷ s) h = ground (arith, to_ascii_complete s h.1)

-- `toAscii` succeeds exactly on the texts whose characters are all printable ASCII, and returns
-- their character codes; on every other text it throws.
pub to_ascii_iff : (s : Text) (bs : Bytes) → (to_ascii s ≡ ok bs) ↔ ((bs ≡ s) × All IsPrintable s)
to_ascii_iff s bs = (to_ascii_sound s bs, λ h. ground (arith, to_ascii_complete s h.1))

from_ascii-to_ascii_lem : (s : Text) → All IsPrintable s → from_ascii s ≡ ok s
unfolding from_ascii
from_ascii-to_ascii_lem [] h = refl
from_ascii-to_ascii_lem (c ∷ s) h = ground (arith, from_ascii-to_ascii_lem s h.1)

-- What `toAscii` encodes, `fromAscii` decodes to the same text.
pub from_ascii-to_ascii : (s : Text) (bs : Bytes) → to_ascii s ≡ ok bs → from_ascii bs ≡ ok s
from_ascii-to_ascii s bs h =
    let (e, p) = to_ascii_sound s bs h in ground (arith, from_ascii-to_ascii_lem s p)
