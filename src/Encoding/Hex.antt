-- ===== src/Encoding/Hex.antt =====
-- packages/encoding/src/hex.ts. Bytes are numbers below 256, text is a list of code units.
pub mod RoundTrip
mod Tests
use cosmjs.Prelude.{
  ℕ, zero, suc, ◌+◌, ◌-◌, ◌*◌, ◌/◌, ◌%◌, Bool, true, false, ◌&&◌, ◌||◌, List, [], ◌∷◌, ◌++◌, ltb,
  leb, ◌==◌, if◌then◌else◌, Text, Bytes, length, drop, Result, ok, throws, ◌>>=◌, ◌>>◌, throw_if,
  not,
}

-- The digit that `toString(16)` writes for a number below 16.
unfoldable pub hex_digit : ℕ → ℕ
hex_digit n = if ltb n 10 then b'0' + n else b'a' + n - 10

-- `byte.toString(16)` of a number below 256: one digit or two.
hex_string : ℕ → Text
unfolding hex_digit
hex_string b = if ltb b 16 then hex_digit b ∷ [] else hex_digit (b / 16) ∷ hex_digit (b % 16) ∷ []

-- `("0" + byte.toString(16)).slice(-2)`: the last two characters.
unfoldable pub byte_to_hex : ℕ → Text
unfolding hex_string
byte_to_hex b = let s = b'0' ∷ hex_string b in drop (length s - 2) s

to_hex_from : Text → Bytes → Text
to_hex_from out [] = out
to_hex_from out (b ∷ bs) = to_hex_from (out ++ byte_to_hex b) bs

unfoldable pub to_hex : Bytes → Text
unfolding to_hex_from byte_to_hex
to_hex bs = to_hex_from [] bs

-- `[0-9a-f]` with the flag `i`.
unfoldable pub is_hex_char : ℕ → Bool
is_hex_char c =
    (leb b'0' c && leb c b'9') || (leb b'a' c && leb c b'f') || (leb b'A' c && leb c b'F')

unfoldable pub hex_value : ℕ → ℕ
hex_value c = if leb c b'9' then c - b'0' else if leb c b'F' then c - b'A' + 10 else c - b'a' + 10

-- The loop: two characters are read in each round. The length is even when it is entered.
unfoldable pub from_hex_pairs : Text → Result Bytes
unfolding is_hex_char hex_value
from_hex_pairs [] = ok []
from_hex_pairs (c ∷ []) = ok []
from_hex_pairs (c ∷ d ∷ s) = do
  throw_if (not (is_hex_char c && is_hex_char d)) "hex string contains invalid characters"
  out ← from_hex_pairs s
  ok ((hex_value c * 16 + hex_value d) ∷ out)

unfoldable pub from_hex : Text → Result Bytes
unfolding from_hex_pairs
from_hex s = do
  throw_if (not (length s % 2 == 0)) "hex string length must be a multiple of 2"
  from_hex_pairs s
