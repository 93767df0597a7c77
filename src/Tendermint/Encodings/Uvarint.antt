-- ===== src/Tendermint/Encodings/Uvarint.antt =====
-- The encoding of numbers, against a reader of the varint format.
use cosmjs.Prelude.{
  ℕ, zero, suc, ◌+◌, ◌-◌, ◌*◌, ◌/◌, ◌%◌, ◌^◌, ◌≤◌, ◌<◌, ◌≡◌, refl, ◌≢◌, inl, inr, true, false,
  Option, none, some, [], ◌∷◌, ◌++◌, arith, ltb, leb, if◌then◌else◌, Bool-cases, Bytes,
}
use cosmjs.Prelude.Int.{pos, negsuc}
use cosmjs.Tendermint.Encodings.{next_number, uvarint_from, encode_uvarint}

-- The lowest seven bits, below those that the bytes behind give.
abbrev pub add_bits : ℕ → Option (ℕ × Bytes) → Option (ℕ × Bytes)
add_bits low none = none
add_bits low (some (n, tail)) = some (low + 128 * n, tail)

-- A varint at the start of bytes, as the format defines it: seven bits a byte, the lowest first,
-- with the highest bit set on all bytes but the last; and what follows.
unfoldable pub read_uvarint : Bytes → Option (ℕ × Bytes)
read_uvarint [] = none
read_uvarint (b ∷ bs) =
    let rest = read_uvarint bs in if ltb b 128 then some (b, bs) else add_bits (b - 128) rest

-- From 2^31 on a 32-bit integer is negative, which a shift keeps.
next_number_low : (n : ℕ) → n < 2 ^ 31 → next_number (pos n) ≡ pos (n / 128)
next_number_low n h =
    let word : n % 2 ^ 32 ≡ n = omega arith in
    let positive : leb (2 ^ 31) n ≡ false = ground arith in rw (word, positive)

next_number_high :
    (n : ℕ) → 2 ^ 31 ≤ n → n < 2 ^ 32 → next_number (pos n) ≡ negsuc ((2 ^ 32 - 1 - n) / 128)
next_number_high n low high =
    let word : n % 2 ^ 32 ≡ n = omega arith in
    let negative : leb (2 ^ 31) n ≡ true = ground arith in rw (word, negative)

uvarint_from_lem :
    (fuel n : ℕ) (tail : Bytes)
    → n ≤ fuel
    → n < 2 ^ 31
    → read_uvarint (uvarint_from fuel (pos n) ++ tail) ≡ some (n, tail)
unfolding uvarint_from read_uvarint
uvarint_from_lem zero n tail h low =
    let small : n % 256 ≡ n = omega arith in
    let short : ltb n 128 ≡ true = ground arith in rw (small, short)
uvarint_from_lem (suc fuel) n tail h low = elim (Bool-cases (leb 0x80 n)) [
  | inl long ↦
      let more : ltb (n % 256 % 128 + 128) 128 ≡ false = ground arith in
      let whole : n % 256 % 128 + 128 - 128 + 128 * (n / 128) ≡ n = omega arith in
      let least : 0x80 ≤ n = ground arith in
      rw (
        long,
        next_number_low n low,
        more,
        uvarint_from_lem fuel (n / 128) tail (omega arith) (omega arith),
        whole,
      )
  | inr short ↦
      let small : n % 256 ≡ n = ground arith in
      let one : ltb n 128 ≡ true = ground arith in rw (short, small, one)
]

-- A number below 2^31 is read back from its encoding, whatever bytes follow it.
pub read-encode_uvarint :
    (n : ℕ) (tail : Bytes) → n < 2 ^ 31 → read_uvarint (encode_uvarint n ++ tail) ≡ some (n, tail)
unfolding encode_uvarint
read-encode_uvarint n tail h = uvarint_from_lem n n tail (omega arith) h

-- The encoding of a negative number ends with one byte.
uvarint_from-negative : (fuel m : ℕ) → uvarint_from fuel (negsuc m) ≡ (255 - m % 256) ∷ []
unfolding uvarint_from
uvarint_from-negative zero m = refl
uvarint_from-negative (suc fuel) m = refl

encode_uvarint_high :
    (n : ℕ)
    → 2 ^ 31 ≤ n
    → n < 2 ^ 32
    → encode_uvarint n ≡ (n % 256 % 128 + 128) ∷ (255 - (2 ^ 32 - 1 - n) / 128 % 256) ∷ []
unfolding encode_uvarint
encode_uvarint_high zero low high = absurd (omega arith)
encode_uvarint_high (suc m) low high =
    let long : leb 0x80 (suc m) ≡ true = ground arith in
    unfold uvarint_from in rw (long, next_number_high (suc m) low high, uvarint_from-negative m _)

-- What two bytes give is below 2^14 + 2^14, and so is not a number from 2^31 on.
two_bytes_differ :
    (a b n : ℕ) → a < 256 → b < 256 → 2 ^ 31 ≤ n → read_uvarint (a ∷ b ∷ []) ≢ some (n, [])
unfolding read_uvarint
two_bytes_differ a b n ha hb low h = elim (Bool-cases (ltb a 128)) [
  | inl one ↦ let given = rw one at h in absurd (ground arith)
  | inr more ↦ elim (Bool-cases (ltb b 128)) [
    | inl two ↦ let given = rw (more, two) at h in absurd (ground arith)
    | inr never ↦ let given = rw (more, never) at h in absurd (ground arith)
  ]
]

-- From 2^31 to 2^32 - 1 the encoding has two bytes, the lowest seven bits with the highest bit set
-- and the next eight bits, and the number is not read back from them: the shift takes the number for
-- a negative one, where the varint format has five bytes.
pub encode_uvarint_cut :
    (n : ℕ)
    → 2 ^ 31 ≤ n
    → n < 2 ^ 32
    → (encode_uvarint n ≡ (n % 128 + 128) ∷ (n / 128 % 256) ∷ [])
      × (read_uvarint (encode_uvarint n) ≢ some (n, []))
encode_uvarint_cut n low high =
    let first : n % 256 % 128 + 128 ≡ n % 128 + 128 = omega arith in
    let second : 255 - (2 ^ 32 - 1 - n) / 128 % 256 ≡ n / 128 % 256 = omega arith in
    rw (encode_uvarint_high n low high, first, second)
      (refl, two_bytes_differ _ _ n (omega arith) (omega arith) low)
