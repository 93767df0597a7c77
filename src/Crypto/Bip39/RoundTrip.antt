-- ===== src/Crypto/Bip39/RoundTrip.antt =====
-- Entropy is read back from its mnemonic.
use cosmjs.Prelude.{
  ℕ, suc, ◌*◌, ◌/◌, ◌%◌, ◌≤◌, ◌≡◌, refl, ap, ◌∙◌, ◌≢◌, ◌⊎◌, inl, inr, true, false, not, ◌||◌, List,
  [], ◌∷◌, ◌++◌, map, arith, ltb, ◌==◌, length, length-append, length-take, length-map, All,
  All-append, take_exact, drop_exact, ok, Text, Bytes, IsByte, text_eq_refl,
}
use cosmjs.Crypto.Bip39.{
  concat, bytes_to_bitstring, full_chunks, join_words, is_allowed, allowed_entropy_lengths,
  allowed_word_lengths, derive_checksum_bits, entropy_to_mnemonic, entropy_of_bits,
  mnemonic_to_entropy, english_mnemonic, encode, decode,
}
use cosmjs.Crypto.Bip39.Bits.{IsBit, length-bytes_to_bitstring, bytes_to_bitstring-IsBit}
use cosmjs.Crypto.Bip39.Chunks.{IsPiece, All-take, full_chunks_lem, chunks-bytes_to_bitstring}
use cosmjs.Crypto.Bip39.Spelling.{
  word_of, words_bits-word_of, lower_words, known_words, split-join_words, IsAscii,
  join_words-IsAscii,
}

allowed_lem :
    (n : ℕ)
    → is_allowed n allowed_entropy_lengths ≡ true
    → (n ≡ 16) ⊎ ((n ≡ 20) ⊎ ((n ≡ 24) ⊎ ((n ≡ 28) ⊎ (n ≡ 32))))
allowed_lem n h = ground arith

-- Three words for every four bytes.
allowed_words :
    (n : ℕ)
    → is_allowed n allowed_entropy_lengths ≡ true
    → (n ≡ 4 * (n / 4))
      × (4 ≤ n / 4)
      × (n / 4 ≤ 8)
      × (is_allowed (3 * (n / 4)) allowed_word_lengths ≡ true)
allowed_words n h = elim (allowed_lem n h) [
  | inl e ↦ rw e (refl, omega arith, omega arith, refl)
  | inr (inl e) ↦ rw e (refl, omega arith, omega arith, refl)
  | inr (inr (inl e)) ↦ rw e (refl, omega arith, omega arith, refl)
  | inr (inr (inr (inl e))) ↦ rw e (refl, omega arith, omega arith, refl)
  | inr (inr (inr (inr e))) ↦ rw e (refl, omega arith, omega arith, refl)
]

pieces_ne : (ps : List Text) (n : ℕ) → length ps ≡ suc n → ps ≢ []
pieces_ne [] n e = λ h. omega (arith, e)
pieces_ne (p ∷ ps) n e = λ h. omega (arith, ap length h)

-- A SHA-256 hash is 32 bytes.
abbrev pub IsHash : Bytes → Type 0
IsHash h = (length h ≡ 32) × All IsByte h

-- The bits that the words of a mnemonic stand for.
abbrev pub mnemonic_bits : (Bytes → Bytes) → Bytes → Text
mnemonic_bits sha256 e = bytes_to_bitstring e ++ derive_checksum_bits sha256 e

module _ (sha256 : Bytes → Bytes) (is_hash : (bs : Bytes) → IsHash (sha256 bs)) where
  length-derive_checksum_bits :
      (e : Bytes) → length e ≤ 32 → length (derive_checksum_bits sha256 e) ≡ length e / 4
  unfolding derive_checksum_bits
  length-derive_checksum_bits e h =
      let (size, bytes) = is_hash e in
      omega (
        arith,
        length-take (length e * 8 / 32) (bytes_to_bitstring (sha256 e)),
        length-bytes_to_bitstring (sha256 e) bytes,
        size,
      )

  checksum-IsBit : (e : Bytes) → All IsBit (derive_checksum_bits sha256 e)
  unfolding derive_checksum_bits
  checksum-IsBit e =
      All-take (length e * 8 / 32) (bytes_to_bitstring (sha256 e))
        (bytes_to_bitstring-IsBit (sha256 e) (is_hash e).1)

  length-mnemonic_bits :
      (e : Bytes)
      → All IsByte e
      → is_allowed (length e) allowed_entropy_lengths ≡ true
      → length (mnemonic_bits sha256 e) ≡ 33 * (length e / 4)
  length-mnemonic_bits e h allowed =
      let (four, least, most, words) = allowed_words (length e) allowed in
      omega (
        arith,
        length-append (bytes_to_bitstring e) (derive_checksum_bits sha256 e),
        length-bytes_to_bitstring e h,
        length-derive_checksum_bits e (omega arith),
      )

  entropy_of_bits_lem :
      (e : Bytes)
      → All IsByte e
      → is_allowed (length e) allowed_entropy_lengths ≡ true
      → entropy_of_bits sha256 (mnemonic_bits sha256 e) ≡ ok e
  unfolding entropy_of_bits
  entropy_of_bits_lem e h allowed =
      let (four, least, most, words) = allowed_words (length e) allowed in
      let data_bits = bytes_to_bitstring e in
      let at : length (mnemonic_bits sha256 e) / 33 * 32 ≡ length data_bits =
        omega (arith, length-mnemonic_bits e h allowed, length-bytes_to_bitstring e h) in
      let sized : (ltb (length e) 16 || ltb 32 (length e) || not (length e % 4 == 0)) ≡ false =
        ground arith in
      rw
        (
          at,
          take_exact (length data_bits) data_bits (derive_checksum_bits sha256 e) refl,
          drop_exact (length data_bits) data_bits (derive_checksum_bits sha256 e) refl,
          chunks-bytes_to_bitstring e h,
          sized,
          text_eq_refl (derive_checksum_bits sha256 e),
        )
        refl

module _ (sha256 : Bytes → Bytes) (normalize : Text → Text)
    (is_hash : (bs : Bytes) → IsHash (sha256 bs))
    (keeps_ascii : (s : Text) → All IsAscii s → normalize s ≡ s) where
  mnemonic_pieces :
      (e : Bytes)
      → All IsByte e
      → is_allowed (length e) allowed_entropy_lengths ≡ true
      → (concat (full_chunks 11 (mnemonic_bits sha256 e)) ≡ mnemonic_bits sha256 e)
        × All (IsPiece 11) (full_chunks 11 (mnemonic_bits sha256 e))
        × (length (full_chunks 11 (mnemonic_bits sha256 e)) ≡ 3 * (length e / 4))
  mnemonic_pieces e h allowed =
      full_chunks_lem (3 * (length e / 4)) 11 (mnemonic_bits sha256 e) (omega arith)
        (omega (arith, length-mnemonic_bits sha256 is_hash e h allowed))
        (All-append IsBit (bytes_to_bitstring e) (derive_checksum_bits sha256 e)
          (bytes_to_bitstring-IsBit e h) (checksum-IsBit sha256 is_hash e))

  -- Reading a text of words is reading their bits.
  read_words :
      (p : Text) (ps : List Text)
      → All (IsPiece 11) (p ∷ ps)
      → is_allowed (length (p ∷ ps)) allowed_word_lengths ≡ true
      → mnemonic_to_entropy sha256 normalize (join_words (map word_of (p ∷ ps)))
        ≡ entropy_of_bits sha256 (concat (p ∷ ps))
  unfolding mnemonic_to_entropy
  read_words p ps h allowed =
      let ascii = join_words-IsAscii (map word_of (p ∷ ps)) (lower_words (p ∷ ps) h) in
      rw
        (
          keeps_ascii (join_words (map word_of (p ∷ ps))) ascii,
          split-join_words (word_of p) (map word_of ps) (lower_words (p ∷ ps) h),
          length-map ps word_of,
          allowed,
          words_bits-word_of (p ∷ ps) h,
        )
        refl

  accept_words :
      (p : Text) (ps : List Text) (e : Bytes)
      → All (IsPiece 11) (p ∷ ps)
      → is_allowed (length (p ∷ ps)) allowed_word_lengths ≡ true
      → entropy_of_bits sha256 (concat (p ∷ ps)) ≡ ok e
      → english_mnemonic sha256 normalize (join_words (map word_of (p ∷ ps)))
        ≡ ok (join_words (map word_of (p ∷ ps)))
  unfolding english_mnemonic
  accept_words p ps e h allowed valid =
      rw
        (
          split-join_words (word_of p) (map word_of ps) (lower_words (p ∷ ps) h),
          lower_words (p ∷ ps) h,
          length-map ps word_of,
          allowed,
          known_words (p ∷ ps) h,
          read_words p ps h allowed,
          valid,
        )
        refl

  -- The mnemonic of entropy, its words and what they are read as.
  encode_lem :
      (e : Bytes) (ps : List Text)
      → length ps ≡ 3 * (length e / 4)
      → All (IsPiece 11) ps
      → is_allowed (length e) allowed_entropy_lengths ≡ true
      → full_chunks 11 (mnemonic_bits sha256 e) ≡ ps
      → entropy_of_bits sha256 (concat ps) ≡ ok e
      → (encode sha256 normalize e ≡ ok (join_words (map word_of ps)))
        × (decode sha256 normalize (join_words (map word_of ps)) ≡ ok e)
  unfolding encode decode entropy_to_mnemonic
  encode_lem e [] count h allowed same valid =
      absurd
        (let (four, least, most, words) = allowed_words (length e) allowed in omega (arith, count))
  encode_lem e (p ∷ ps) count h allowed same valid =
      let (four, least, most, words) = allowed_words (length e) allowed in
      let counted : is_allowed (length (p ∷ ps)) allowed_word_lengths ≡ true = rw count words in
      (rw (allowed, same) (accept_words p ps e h counted valid), read_words p ps h counted ∙ valid)

  -- Entropy of an allowed length has a mnemonic, which all checks of EnglishMnemonic accept and
  -- which is decoded to the entropy.
  pub encode-decode :
      (e : Bytes)
      → All IsByte e
      → is_allowed (length e) allowed_entropy_lengths ≡ true
      → (mnemonic : Text) × (encode sha256 normalize e ≡ ok mnemonic)
        × (decode sha256 normalize mnemonic ≡ ok e)
  encode-decode e h allowed =
      let (joined, pieces, count) = mnemonic_pieces e h allowed in
      let ps = full_chunks 11 (mnemonic_bits sha256 e) in
      let valid = entropy_of_bits_lem sha256 is_hash e h allowed in
      let (encoded, decoded) = encode_lem e ps count pieces allowed refl (rw joined valid) in
      (join_words (map word_of ps), encoded, decoded)
