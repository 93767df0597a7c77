-- ===== src/Tendermint/Encodings.antt =====
-- packages/tendermint-rpc/src/comet38/encodings.ts: the encodings that block hashes are made of.
-- The functions of tendermint34 and tendermint37 read the same.
pub mod Uvarint
pub mod Fields
mod Tests
use Prim.Native.String.{String}
use cosmjs.Prelude.Int.{ℤ, pos, negsuc}
use cosmjs.Prelude.{
  ℕ, zero, suc, ◌+◌, ◌-◌, ◌*◌, ◌/◌, ◌%◌, ◌^◌, Bool, false, Option, none, some, [], ◌∷◌, ◌++◌, leb,
  ◌==◌, if◌then◌else◌, length, Result, ◌>>◌, throw_if, ok, Bytes,
}

-- `Uint8Array.from([utf8.length, ...utf8])`; the text comes as the bytes that `toUtf8` makes of it.
unfoldable pub encode_string : Bytes → Bytes
encode_string utf8 = (length utf8 % 256) ∷ utf8

-- The 32-bit integer that a bit operation makes of an integer: its lowest 32 bits, the highest of
-- them being the sign.
abbrev pub to_int32 : ℕ → ℤ
to_int32 n =
    let word = n % 2 ^ 32 in if leb (2 ^ 31) word then negsuc (2 ^ 32 - 1 - word) else pos word

-- `>> 7` of a 32-bit integer, which keeps the sign. `negsuc n` is -1 - n, that is, ~n, and a shift
-- to the right commutes with ~.
abbrev pub shift_right : ℤ → ℤ
shift_right (pos n) = pos (n / 128)
shift_right (negsuc n) = negsuc (n / 128)

-- `& 0xff` of a 32-bit integer: the lowest byte of ~n is 255 less the lowest byte of n.
abbrev pub low_byte : ℤ → ℕ
low_byte (pos n) = n % 256
low_byte (negsuc n) = 255 - n % 256

-- `n >= 0x80`
abbrev pub has_more : ℤ → Bool
has_more (pos n) = leb 0x80 n
has_more (negsuc n) = false

-- `| 0x80` of a byte.
abbrev pub with_high_bit : ℕ → ℕ
with_high_bit byte = byte % 128 + 128

-- `n >> 7`; an integer that is negative already is one of 32 bits.
abbrev pub next_number : ℤ → ℤ
next_number (pos n) = shift_right (to_int32 n)
next_number (negsuc n) = shift_right (negsuc n)

-- `encodeUvarint` of an integer; the bit operations are those on 32-bit integers. Each call divides
-- the number by 128, which bounds the depth by the number.
unfoldable pub uvarint_from : ℕ → ℤ → Bytes
uvarint_from zero n = low_byte n ∷ []
uvarint_from (suc fuel) n =
    let rest = uvarint_from fuel (next_number n) in
    if has_more n then with_high_bit (low_byte n) ∷ rest else low_byte n ∷ []

unfoldable pub encode_uvarint : ℕ → Bytes
encode_uvarint n = uvarint_from n (pos n)

-- `n ? [tag, ...encodeUvarint(n)] : []`
unfoldable pub field : ℕ → ℕ → Bytes
field tag n = if n == 0 then [] else tag ∷ encode_uvarint n

-- A point in time from 1970 on: the milliseconds, and the nanoseconds after them.
pub record Time : Type 0 where
  pub milliseconds : ℕ
  pub nanoseconds : Option ℕ

abbrev pub or_none : Option ℕ → ℕ
or_none none = 0
or_none (some n) = n

unfoldable pub encode_time : Time → Bytes
encode_time time =
    field 0x08 (time.milliseconds / 1000)
    ++ field 0x10 (or_none time.nanoseconds + time.milliseconds % 1000 * 1000000)

unfoldable pub encode_bytes : Bytes → Result Bytes
encode_bytes bytes = do
  throw_if (leb 0x80 (length bytes)) "Not implemented for byte arrays of length 128 or more"
  ok (if length bytes == 0 then [] else length bytes ∷ bytes)

-- `block` and `app`; a missing `app` is 0 here, and both are left out alike.
pub record Version : Type 0 where
  pub block : ℕ
  pub app : ℕ

unfoldable pub encode_version : Version → Bytes
encode_version version = field 0x08 version.block ++ field 0x10 version.app

pub record BlockId : Type 0 where
  pub hash : Bytes
  pub total : ℕ
  pub parts_hash : Bytes

-- `Uint8Array.from` keeps each number modulo 256.
unfoldable pub encode_block_id : BlockId → Bytes
encode_block_id id =
    0x0a
    ∷ (length id.hash % 256)
    ∷ (id.hash
        ++ 0x12
          ∷ ((length id.parts_hash + 4) % 256)
          ∷ 0x08
          ∷ (id.total % 256)
          ∷ 0x12
          ∷ (length id.parts_hash % 256)
          ∷ id.parts_hash)
