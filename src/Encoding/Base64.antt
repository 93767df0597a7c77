-- ===== src/Encoding/Base64.antt =====
-- packages/encoding/src/base64.ts, over the package base64-js as a parameter.
mod Tests
use cosmjs.Prelude.{
  ℕ, ◌+◌, ◌-◌, ◌/◌, ◌<◌, ◌≡◌, refl, Bool, true, false, not, ◌&&◌, ◌||◌, [], ◌∷◌, arith, leb, ◌==◌,
  if◌then◌else◌, All, Result, ◌>>◌, throw_if, ok, Text, Bytes, IsByte,
}
use cosmjs.Encoding.Hex.{to_hex, from_hex, hex_digit}
use cosmjs.Encoding.Hex.RoundTrip.{from_hex-to_hex, All-to_hex}

-- `[a-zA-Z0-9+/]`
abbrev pub is_base64_char : ℕ → Bool
is_base64_char c =
    (leb b'a' c && leb c b'z')
    || (leb b'A' c && leb c b'Z')
    || (leb b'0' c && leb c b'9')
    || c == b'+'
    || c == b'/'

-- `={0,2}` up to the end.
unfoldable pub is_padding : Text → Bool
is_padding [] = true
is_padding (c ∷ []) = c == b'='
is_padding (c ∷ d ∷ []) = c == b'=' && d == b'='
is_padding (c ∷ d ∷ e ∷ s) = false

-- `/^[a-zA-Z0-9+/]*={0,2}$/`; the padding character is none of the others.
unfoldable pub is_base64_format : Text → Bool
unfolding is_padding
is_base64_format [] = true
is_base64_format (c ∷ s) = if is_base64_char c then is_base64_format s else is_padding (c ∷ s)

-- base64-js: what its two functions do for each other.
pub record Base64Js : Type 0 where
  pub from_byte_array : Bytes → Text
  pub to_byte_array : Text → Result Bytes
  pub from_byte_array_format :
      (bs : Bytes) → All IsByte bs → is_base64_format (from_byte_array bs) ≡ true
  pub to_byte_array-from_byte_array :
      (bs : Bytes) → All IsByte bs → to_byte_array (from_byte_array bs) ≡ ok bs

module _ (b : Base64Js) where
  unfoldable pub to_base64 : Bytes → Text
  to_base64 bs = b.from_byte_array bs

  unfoldable pub from_base64 : Text → Result Bytes
  from_base64 s = do
    throw_if (not (is_base64_format s)) "Invalid base64 string format"
    b.to_byte_array s

  -- The format test refuses nothing that `toBase64` writes: every byte array is read back.
  pub from_base64-to_base64 : (bs : Bytes) → All IsByte bs → from_base64 (to_base64 bs) ≡ ok bs
  unfolding from_base64 to_base64
  from_base64-to_base64 bs h =
      rw (b.from_byte_array_format bs h, b.to_byte_array-from_byte_array bs h)

-- Text of base64 characters only has the format.
pub is_base64_format_of_All :
    (s : Text) → All (λ c. is_base64_char c ≡ true) s → is_base64_format s ≡ true
unfolding is_base64_format
is_base64_format_of_All [] h = refl
is_base64_format_of_All (c ∷ s) h = rw h.0 (is_base64_format_of_All s h.1)

hex_digit_char : (n : ℕ) → n < 16 → is_base64_char (hex_digit n) ≡ true
unfolding hex_digit
hex_digit_char n h = ground arith

pub native_format : (bs : Bytes) → All IsByte bs → is_base64_format (to_hex bs) ≡ true
native_format bs h =
    is_base64_format_of_All (to_hex bs)
      (All-to_hex (λ c. is_base64_char c ≡ true) hex_digit_char bs h)

-- A stand-in that meets what is asked of base64-js: hex digits are base64 characters.
abbrev pub native : Base64Js
native = record {
  from_byte_array = to_hex;
  to_byte_array = from_hex;
  from_byte_array_format = native_format;
  to_byte_array-from_byte_array = from_hex-to_hex;
}
