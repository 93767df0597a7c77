-- ===== src/Crypto/Bip39/Bits.antt =====
-- Numbers as bit strings of a fixed width.
use native.Mathlib.Nat.{pow-suc, pow-zero, add-zero}
use cosmjs.Prelude.{
  ℕ, zero, suc, ◌+◌, ◌-◌, ◌*◌, ◌/◌, ◌%◌, ◌^◌, ◌≤◌, ◌<◌, ◌≡◌, refl, sym, ◌∙◌, inl, inr, Bool, true,
  ◌&&◌, [], ◌∷◌, ◌++◌, append_assoc, append-nil, arith, ◌==◌, Bool-cases, length, length-append,
  All, All-append, Text, Bytes, text_eq, IsByte, text_eq_sound,
}
use cosmjs.Crypto.Bip39.{to_binary, pad_start, parse_binary, bitstring_to_byte, bytes_to_bitstring}

abbrev pub IsBit : ℕ → Type 0
IsBit c = (b'0' ≤ c) × (c ≤ b'1')

-- The k lowest bits of a number, the highest first.
unfoldable pub bits : ℕ → ℕ → Text
bits zero n = []
bits (suc k) n = bits k (n / 2) ++ (b'0' + n % 2) ∷ []

pub length-bits : (k n : ℕ) → length (bits k n) ≡ k
unfolding bits
length-bits zero n = refl
length-bits (suc k) n =
    omega (arith, length-append (bits k (n / 2)) ((b'0' + n % 2) ∷ []), length-bits k (n / 2))

pub bits-IsBit : (k n : ℕ) → All IsBit (bits k n)
unfolding bits
bits-IsBit zero n = tt
bits-IsBit (suc k) n =
    All-append IsBit (bits k (n / 2)) ((b'0' + n % 2) ∷ []) (bits-IsBit k (n / 2)) (omega arith)

-- Whether the text of each number from `start` on, padded to k characters, is its k bits.
spells_bits : ℕ → ℕ → ℕ → Bool
spells_bits k start zero = true
spells_bits k start (suc count) =
    text_eq (pad_start (to_binary start) k) (bits k start) && spells_bits k (suc start) count

spelt_bits :
    (k count start n : ℕ)
    → spells_bits k start count ≡ true
    → start ≤ n
    → n < start + count
    → pad_start (to_binary n) k ≡ bits k n
unfolding spells_bits
spelt_bits k zero start n table low high = absurd (omega arith)
spelt_bits k (suc count) start n table low high = elim (Bool-cases (start == n)) [
  | inl e ↦
      let same : start ≡ n = ground arith in
      rw (← same) (text_eq_sound (pad_start (to_binary start) k) (bits k start) (ground arith))
  | inr other ↦ spelt_bits k count (suc start) n (ground arith) (ground arith) (omega arith)
]

byte_table : spells_bits 8 0 256 ≡ true
unfolding spells_bits to_binary bits
byte_table = refl

index_table : spells_bits 11 0 2048 ≡ true
unfolding spells_bits to_binary bits
index_table = refl

pub byte_bits : (n : ℕ) → n < 256 → pad_start (to_binary n) 8 ≡ bits 8 n
byte_bits n h = spelt_bits 8 256 0 n byte_table (omega arith) h

pub index_bits : (n : ℕ) → n < 2048 → pad_start (to_binary n) 11 ≡ bits 11 n
index_bits n h = spelt_bits 11 2048 0 n index_table (omega arith) h

parse_binary-append :
    (s : Text) (c acc : ℕ) → parse_binary acc (s ++ c ∷ []) ≡ parse_binary acc s * 2 + (c - b'0')
unfolding parse_binary
parse_binary-append [] c acc = refl
parse_binary-append (d ∷ s) c acc = parse_binary-append s c (acc * 2 + (d - b'0'))

-- The bits of a number spell it.
pub bitstring_to_byte-bits : (k n : ℕ) → n < 2 ^ k → bitstring_to_byte (bits k n) ≡ n
unfolding bitstring_to_byte bits parse_binary
bitstring_to_byte-bits zero n h = omega (arith, pow-zero 2)
bitstring_to_byte-bits (suc k) n h =
    let rec : parse_binary 0 (bits k (n / 2)) ≡ n / 2 =
      bitstring_to_byte-bits k (n / 2) (omega (arith, pow-suc 2 k)) in
    parse_binary-append (bits k (n / 2)) (b'0' + n % 2) 0 ∙ omega (arith, rec)

-- Reading bits one by one: the number, and its bits again.
spelled :
    (s : Text) (k acc : ℕ)
    → All IsBit s
    → acc < 2 ^ k
    → (bits (k + length s) (parse_binary acc s) ≡ bits k acc ++ s)
      × (parse_binary acc s < 2 ^ (k + length s))
unfolding parse_binary
spelled [] k acc h low = rw (add-zero k) (sym (append-nil (bits k acc)), low)
spelled (c ∷ s) k acc (hc, h) low =
    let v = acc * 2 + (c - b'0') in
    let (same, less) = spelled s (suc k) v h (omega (arith, pow-suc 2 k)) in
    let width : k + suc (length s) ≡ suc k + length s = omega arith in
    let high : v / 2 ≡ acc = omega arith in
    let last : b'0' + v % 2 ≡ c = omega arith in
    rw width (same ∙ (unfold bits in rw (high, last) (append_assoc (bits k acc) (c ∷ []) s)), less)

pub bits-bitstring_to_byte :
    (s : Text) (k : ℕ)
    → All IsBit s
    → length s ≡ k
    → (bits k (bitstring_to_byte s) ≡ s) × (bitstring_to_byte s < 2 ^ k)
unfolding bitstring_to_byte bits
bits-bitstring_to_byte s k h e =
    let none_before : 0 + length s ≡ length s = omega arith in
    rw (← e) (rw none_before at (spelled s 0 0 h (omega (arith, pow-zero 2))))

-- The bits of bytes are eight for each, and each is 0 or 1.
pub length-bytes_to_bitstring :
    (bs : Bytes) → All IsByte bs → length (bytes_to_bitstring bs) ≡ 8 * length bs
unfolding bytes_to_bitstring
length-bytes_to_bitstring [] h = refl
length-bytes_to_bitstring (b ∷ bs) (hb, h) = rw (byte_bits b hb) (
    omega (
      arith,
      length-append (bits 8 b) (bytes_to_bitstring bs),
      length-bits 8 b,
      length-bytes_to_bitstring bs h,
    ))

pub bytes_to_bitstring-IsBit : (bs : Bytes) → All IsByte bs → All IsBit (bytes_to_bitstring bs)
unfolding bytes_to_bitstring
bytes_to_bitstring-IsBit [] h = tt
bytes_to_bitstring-IsBit (b ∷ bs) (hb, h) = rw (byte_bits b hb) (
    All-append IsBit (bits 8 b) (bytes_to_bitstring bs) (bits-IsBit 8 b)
      (bytes_to_bitstring-IsBit bs h))
