-- ===== src/Encoding/Hex/RoundTrip.antt =====
-- What `toHex` writes, `fromHex` reads, and the other way round up to letter case.
use cosmjs.Prelude.{
  ℕ, ◌+◌, ◌*◌, ◌/◌, ◌%◌, ◌<◌, ◌≡◌, refl, sym, ap, true, [], ◌∷◌, ◌++◌, append_assoc, append-nil,
  arith, length, All, ok, Text, Bytes, IsByte,
}
use cosmjs.Encoding.Hex.{
  hex_digit, byte_to_hex, to_hex_from, to_hex, is_hex_char, hex_value, from_hex_pairs, from_hex,
}

-- A byte is written by two digits, its high and its low half.
byte_to_hex_lem : (b : ℕ) → b < 256 → byte_to_hex b ≡ hex_digit (b / 16) ∷ hex_digit (b % 16) ∷ []
unfolding byte_to_hex
byte_to_hex_lem b h = ground arith

hex_digit_lem :
    (n : ℕ) → n < 16 → (is_hex_char (hex_digit n) ≡ true) × (hex_value (hex_digit n) ≡ n)
unfolding hex_digit is_hex_char hex_value
hex_digit_lem n h = ground arith

-- The digits of all the bytes in order.
spell : Bytes → Text
spell [] = []
spell (b ∷ bs) = hex_digit (b / 16) ∷ hex_digit (b % 16) ∷ spell bs

to_hex_from-spell : (out : Text) (bs : Bytes) → All IsByte bs → to_hex_from out bs ≡ out ++ spell bs
unfolding to_hex_from spell
to_hex_from-spell out [] h = sym (append-nil out)
to_hex_from-spell out (b ∷ bs) (hb, h) = rw (
  byte_to_hex_lem b hb,
  to_hex_from-spell (out ++ hex_digit (b / 16) ∷ hex_digit (b % 16) ∷ []) bs h,
  append_assoc,
)

to_hex-spell : (bs : Bytes) → All IsByte bs → to_hex bs ≡ spell bs
unfolding to_hex
to_hex-spell bs h = to_hex_from-spell [] bs h

length-spell : (bs : Bytes) → length (spell bs) ≡ 2 * length bs
unfolding spell
length-spell [] = refl
length-spell (b ∷ bs) = omega (arith, length-spell bs)

from_hex_pairs-spell : (bs : Bytes) → All IsByte bs → from_hex_pairs (spell bs) ≡ ok bs
unfolding spell from_hex_pairs
from_hex_pairs-spell [] h = refl
from_hex_pairs-spell (b ∷ bs) (hb, h) =
    let hi = hex_digit_lem (b / 16) (omega arith) in
    let lo = hex_digit_lem (b % 16) (omega arith) in
    let e : b / 16 * 16 + b % 16 ≡ b = omega arith in
    rw (hi.0, lo.0, hi.1, lo.1, from_hex_pairs-spell bs h, e)

-- Every array of numbers below 256 is read back from its hex text.
pub from_hex-to_hex : (bs : Bytes) → All IsByte bs → from_hex (to_hex bs) ≡ ok bs
unfolding from_hex
from_hex-to_hex bs h =
    rw (to_hex-spell bs h) (ground (arith, length-spell bs, from_hex_pairs-spell bs h))

-- Two byte arrays with the same hex text are equal.
pub to_hex_injective :
    (xs bs : Bytes) → All IsByte xs → All IsByte bs → to_hex xs ≡ to_hex bs → xs ≡ bs
to_hex_injective xs bs ha hb e = cc (from_hex-to_hex xs ha, from_hex-to_hex bs hb, ap from_hex e)

-- The hex text of n bytes has 2n characters.
pub length-to_hex : (bs : Bytes) → All IsByte bs → length (to_hex bs) ≡ 2 * length bs
length-to_hex bs h = rw (to_hex-spell bs h) (length-spell bs)

-- What holds of the sixteen digits holds of every character of a hex text.
module _ (P : ℕ → Type 0) (digits : (n : ℕ) → n < 16 → P (hex_digit n)) where
  All-spell : (bs : Bytes) → All IsByte bs → All P (spell bs)
  unfolding spell
  All-spell [] h = tt
  All-spell (b ∷ bs) (hb, h) =
      (digits (b / 16) (omega arith), (digits (b % 16) (omega arith), All-spell bs h))

  pub All-to_hex : (bs : Bytes) → All IsByte bs → All P (to_hex bs)
  All-to_hex bs h = rw (to_hex-spell bs h) (All-spell bs h)
