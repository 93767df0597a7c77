-- ===== src/Crypto/Bip39/Chunks.antt =====
-- Cutting bit strings into pieces.
use cosmjs.Prelude.{
  ℕ, zero, suc, ◌+◌, ◌*◌, ◌≤◌, ◌≡◌, refl, ap, ◌≢◌, true, false, List, [], ◌∷◌, ◌++◌, map, arith,
  ltb, length, length-append, take, drop, take-append-drop, length-take, length-drop, All,
  take_exact, drop_exact, Text, Bytes, IsByte,
}
use cosmjs.Crypto.Bip39.{
  full_chunks, full_chunks_from, chunks, chunks_from, concat, bytes_to_bitstring, bitstring_to_byte,
}
use cosmjs.Crypto.Bip39.Bits.{
  bits-bitstring_to_byte, IsBit, bits, length-bits, byte_bits, bitstring_to_byte-bits,
  length-bytes_to_bitstring,
}

pub All-take : (k : ℕ) (s : Text) → All IsBit s → All IsBit (take k s)
All-take zero s h = tt
All-take (suc k) [] h = tt
All-take (suc k) (c ∷ s) (hc, h) = (hc, All-take k s h)

All-drop : (k : ℕ) (s : Text) → All IsBit s → All IsBit (drop k s)
All-drop zero s h = h
All-drop (suc k) [] h = tt
All-drop (suc k) (c ∷ s) (hc, h) = All-drop k s h

-- A piece of k bits.
abbrev pub IsPiece : ℕ → Text → Type 0
IsPiece k p = (length p ≡ k) × All IsBit p

full_chunks_from_lem :
    (m fuel k : ℕ) (s : Text)
    → 1 ≤ k
    → length s ≡ m * k
    → m ≤ fuel
    → All IsBit s
    → (concat (full_chunks_from fuel k s) ≡ s)
      × All (IsPiece k) (full_chunks_from fuel k s)
      × (length (full_chunks_from fuel k s) ≡ m)
unfolding full_chunks_from
full_chunks_from_lem zero zero k [] one e fits h = (refl, tt, refl)
full_chunks_from_lem zero zero k (c ∷ s) one e fits h = absurd (omega arith)
full_chunks_from_lem zero (suc fuel) k [] one e fits h =
    let short : ltb 0 k ≡ true = ground arith in rw short (refl, tt, refl)
full_chunks_from_lem zero (suc fuel) k (c ∷ s) one e fits h = absurd (omega arith)
full_chunks_from_lem (suc m) zero k s one e fits h = absurd (omega arith)
full_chunks_from_lem (suc m) (suc fuel) k s one e fits h =
    let size : length s ≡ k + m * k = grind arith in
    let enough : ltb (length s) k ≡ false = ground arith in
    let (joined, pieces, count) =
      full_chunks_from_lem m fuel k (drop k s) one (omega (arith, length-drop k s)) (omega arith)
        (All-drop k s h) in
    rw enough (
      rw joined (take-append-drop k s),
      ((omega (arith, length-take k s), All-take k s h), pieces),
      ap suc count,
    )

-- A bit string of m * k bits is cut into m pieces of k bits, which join to it again.
pub full_chunks_lem :
    (m k : ℕ) (s : Text)
    → 1 ≤ k
    → length s ≡ m * k
    → All IsBit s
    → (concat (full_chunks k s) ≡ s)
      × All (IsPiece k) (full_chunks k s)
      × (length (full_chunks k s) ≡ m)
unfolding full_chunks
full_chunks_lem m k s one e h =
    let enough : m ≤ m * k = grind arith in
    full_chunks_from_lem m (length s) k s one e (omega arith) h

take-bits : (b : ℕ) (s : Text) → take 8 (bits 8 b ++ s) ≡ bits 8 b
take-bits b s = take_exact 8 (bits 8 b) s (length-bits 8 b)

drop-bits : (b : ℕ) (s : Text) → drop 8 (bits 8 b ++ s) ≡ s
drop-bits b s = drop_exact 8 (bits 8 b) s (length-bits 8 b)

chunks_from_step :
    (fuel : ℕ) (s : Text)
    → s ≢ []
    → chunks_from (suc fuel) 8 s ≡ take 8 s ∷ chunks_from fuel 8 (drop 8 s)
unfolding chunks_from
chunks_from_step fuel [] h = absurd (h refl)
chunks_from_step fuel (c ∷ s) h = refl

chunks_from_nil : (fuel : ℕ) → chunks_from fuel 8 [] ≡ []
unfolding chunks_from
chunks_from_nil zero = refl
chunks_from_nil (suc fuel) = refl

bits_ne : (b : ℕ) (s : Text) → bits 8 b ++ s ≢ []
bits_ne b s h = omega (arith, ap length h, length-append (bits 8 b) s, length-bits 8 b)

chunks_from_bytes :
    (bs : Bytes) (fuel : ℕ)
    → All IsByte bs
    → length bs ≤ fuel
    → map bitstring_to_byte (chunks_from fuel 8 (bytes_to_bitstring bs)) ≡ bs
unfolding bytes_to_bitstring
chunks_from_bytes [] fuel h fits = rw (chunks_from_nil fuel)
chunks_from_bytes (b ∷ bs) zero h fits = absurd (omega arith)
chunks_from_bytes (b ∷ bs) (suc fuel) (hb, h) fits =
    let rest = bytes_to_bitstring bs in
    rw (
      byte_bits b hb,
      chunks_from_step fuel (bits 8 b ++ rest) (bits_ne b rest),
      take-bits b rest,
      drop-bits b rest,
      bitstring_to_byte-bits 8 b hb,
      chunks_from_bytes bs fuel h (omega arith),
    )

-- The bits of bytes, cut into pieces of eight, are read as the bytes.
pub chunks-bytes_to_bitstring :
    (bs : Bytes) → All IsByte bs → map bitstring_to_byte (chunks 8 (bytes_to_bitstring bs)) ≡ bs
unfolding chunks
chunks-bytes_to_bitstring bs h =
    chunks_from_bytes bs (length (bytes_to_bitstring bs)) h
      (omega (arith, length-bytes_to_bitstring bs h))

-- Pieces are cut where they were joined.
full_chunks_from-concat :
    (ps : List Text) (fuel : ℕ)
    → All (IsPiece 11) ps
    → length (concat ps) ≤ fuel
    → full_chunks_from fuel 11 (concat ps) ≡ ps
unfolding full_chunks_from
full_chunks_from-concat [] zero h fits = refl
full_chunks_from-concat [] (suc fuel) h fits = refl
full_chunks_from-concat (p ∷ ps) zero (hp, h) fits =
    absurd (omega (arith, length-append p (concat ps), hp.0))
full_chunks_from-concat (p ∷ ps) (suc fuel) (hp, h) fits =
    let size : length (p ++ concat ps) ≡ 11 + length (concat ps) =
      omega (arith, length-append p (concat ps), hp.0) in
    let enough : ltb (length (p ++ concat ps)) 11 ≡ false = ground arith in
    rw (
      enough,
      take_exact 11 p (concat ps) hp.0,
      drop_exact 11 p (concat ps) hp.0,
      full_chunks_from-concat ps fuel h (omega (arith, size, hp.0)),
    )

pub full_chunks-concat : (ps : List Text) → All (IsPiece 11) ps → full_chunks 11 (concat ps) ≡ ps
unfolding full_chunks
full_chunks-concat ps h = full_chunks_from-concat ps (length (concat ps)) h (omega arith)

bytes_from_chunks :
    (m fuel : ℕ) (s : Text)
    → All IsBit s
    → length s ≡ 8 * m
    → m ≤ fuel
    → (bytes_to_bitstring (map bitstring_to_byte (chunks_from fuel 8 s)) ≡ s)
      × (length (map bitstring_to_byte (chunks_from fuel 8 s)) ≡ m)
unfolding bytes_to_bitstring
bytes_from_chunks zero fuel [] h e fits = rw (chunks_from_nil fuel) (refl, refl)
bytes_from_chunks zero fuel (c ∷ s) h e fits = absurd (omega arith)
bytes_from_chunks (suc m) zero s h e fits = absurd (omega arith)
bytes_from_chunks (suc m) (suc fuel) s h e fits =
    let (same, less) =
      bits-bitstring_to_byte (take 8 s) 8 (All-take 8 s h) (omega (arith, length-take 8 s)) in
    let (joined, count) =
      bytes_from_chunks m fuel (drop 8 s) (All-drop 8 s h) (omega (arith, length-drop 8 s))
        (omega arith) in
    rw
      (
        chunks_from_step fuel s (λ n. omega (arith, ap length n)),
        byte_bits (bitstring_to_byte (take 8 s)) less,
        same,
      )
      (rw joined (take-append-drop 8 s), ap suc count)

-- Bits in eights are the bits of their bytes.
pub bytes_to_bitstring-chunks :
    (m : ℕ) (s : Text)
    → All IsBit s
    → length s ≡ 8 * m
    → (bytes_to_bitstring (map bitstring_to_byte (chunks 8 s)) ≡ s)
      × (length (map bitstring_to_byte (chunks 8 s)) ≡ m)
unfolding chunks
bytes_to_bitstring-chunks m s h e = bytes_from_chunks m (length s) s h e (omega arith)
