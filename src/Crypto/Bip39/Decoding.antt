-- ===== src/Crypto/Bip39/Decoding.antt =====
-- A mnemonic that is decoded is the one of its entropy.
use cosmjs.Prelude.{
  ℕ, suc, ◌*◌, ◌/◌, ◌%◌, ◌≤◌, ◌<◌, ◌≡◌, refl, sym, ap, ◌∙◌, ◌≢◌, ◌⊎◌, inl, inr, true, not, ◌||◌,
  none, some, List, [], ◌∷◌, ◌++◌, map, arith, ltb, ◌==◌, Bool-cases, Option-cases, length,
  length-append, get_or, take, drop, take-append-drop, length-take, length-map, All, All-append,
  Result-cases, ok, throws, Text, Bytes, text_eq, cons_head, split, text_eq_sound,
}
use cosmjs.Crypto.Bip39.Wordlist.{wordlist}
use cosmjs.Crypto.Bip39.{
  concat, bytes_to_bitstring, bitstring_to_byte, chunks, index_of, join_words, is_allowed,
  allowed_entropy_lengths, allowed_word_lengths, word_bits, words_bits, index_word_bits,
  derive_checksum_bits, entropy_to_mnemonic, entropy_of_bits, mnemonic_to_entropy, decode,
}
use cosmjs.Crypto.Bip39.Bits.{
  IsBit, bits, bits-IsBit, length-bits, index_bits, bitstring_to_byte-bits,
}
use cosmjs.Crypto.Bip39.Chunks.{full_chunks-concat, bytes_to_bitstring-chunks, IsPiece, All-take}
use cosmjs.Crypto.Bip39.Words.{length-wordlist}
use cosmjs.Crypto.Bip39.Spelling.{word_of}

index_of_sound :
    (ws : List Text) (w : Text) (i : ℕ)
    → index_of ws w ≡ some i
    → (i < length ws) × (get_or ws i [] ≡ w)
unfolding index_of
index_of_sound [] w i h = cc
index_of_sound (v ∷ ws) w i h = elim (Bool-cases (text_eq v w)) [
  | inl same ↦
      let first : some 0 ≡ some i = rw same at h in
      let start : 0 ≡ i = cc in rw (← start) (omega arith, text_eq_sound v w same)
  | inr other ↦ elim (Option-cases (index_of ws w)) [
    | inl e ↦ let missing : none ≡ some i = rw (other, e) at h in cc
    | inr (j, e) ↦
        let later : some (suc j) ≡ some i = rw (other, e) at h in
        let next : suc j ≡ i = cc in
        let (less, same) = index_of_sound ws w j e in rw (← next) (omega arith, same)
  ]
]

-- A word of the list has eleven bits, whose word it is.
word_bits_sound : (w s : Text) → word_bits w ≡ ok s → IsPiece 11 s × (word_of s ≡ w)
unfolding word_bits
word_bits_sound w s h = elim (Option-cases (index_of wordlist w)) [
  | inl e ↦ let failed : index_word_bits none ≡ ok s = rw e at h in cc
  | inr (i, e) ↦
      let found : index_word_bits (some i) ≡ ok s = rw e at h in
      let (less, same) = index_of_sound wordlist w i e in
      let small : i < 2048 = omega (arith, length-wordlist) in
      let spelt : bits 11 i ≡ s = sym (index_bits i small) ∙ (cc) in
      rw (← spelt)
        ((length-bits 11 i, bits-IsBit 11 i), rw (bitstring_to_byte-bits 11 i small) same)
]

join_words-cons_nil : (ps : List Text) → ps ≢ [] → join_words ([] ∷ ps) ≡ b' ' ∷ join_words ps
unfolding join_words
join_words-cons_nil [] h = absurd (h refl)
join_words-cons_nil (p ∷ ps) h = refl

join_words-cons_head : (c : ℕ) (ps : List Text) → join_words (cons_head c ps) ≡ c ∷ join_words ps
unfolding join_words
join_words-cons_head c [] = refl
join_words-cons_head c (p ∷ []) = refl
join_words-cons_head c (p ∷ q ∷ ps) = refl

cons_head_ne : (c : ℕ) (ps : List Text) → cons_head c ps ≢ []
cons_head_ne c [] h = omega (arith, ap length h)
cons_head_ne c (p ∷ ps) h = omega (arith, ap length h)

split_ne : (s : Text) → split b' ' s ≢ []
unfolding split
split_ne [] h = omega (arith, ap length h)
split_ne (c ∷ s) h = elim (Bool-cases (c == b' ')) [
  | inl e ↦ omega (arith, ap length (rw e at h))
  | inr e ↦ cons_head_ne c (split b' ' s) (rw e at h)
]

-- `join(" ")` undoes `split(" ")`.
join_words-split : (s : Text) → join_words (split b' ' s) ≡ s
unfolding split
join_words-split [] = unfold join_words in refl
join_words-split (c ∷ s) = elim (Bool-cases (c == b' ')) [
  | inl e ↦
      let space : b' ' ≡ c = ground arith in
      rw (e, join_words-cons_nil (split b' ' s) (split_ne s), join_words-split s, space) refl
  | inr e ↦ rw (e, join_words-cons_head c (split b' ' s), join_words-split s) refl
]

words_bits_sound :
    (ws : List Text) (s : Text)
    → words_bits ws ≡ ok s
    → (ps : List Text) × All (IsPiece 11) ps × (concat ps ≡ s) × (map word_of ps ≡ ws)
unfolding words_bits
words_bits_sound [] s h = ([], tt, cc, refl)
words_bits_sound (w ∷ ws) s h = elim (Result-cases (word_bits w)) [
  | inl (p, e) ↦ elim (Result-cases (words_bits ws)) [
    | inl (t, k) ↦
        let joined : ok (p ++ t) ≡ ok s = rw (e, k) at h in
        let (piece, word) = word_bits_sound w p e in
        let (ps, pieces, same, words) = words_bits_sound ws t k in
        (p ∷ ps, (piece, pieces), rw same cc, rw (word, words) refl)
    | inr (m, k) ↦ let failed : throws m ≡ ok s = rw (e, k) at h in cc
  ]
  | inr (m, e) ↦ let failed : throws m ≡ ok s = rw e at h in cc
]

allowed_words_lem :
    (n : ℕ)
    → is_allowed n allowed_word_lengths ≡ true
    → (n ≡ 12) ⊎ ((n ≡ 15) ⊎ ((n ≡ 18) ⊎ ((n ≡ 21) ⊎ (n ≡ 24))))
allowed_words_lem n h = ground arith

-- Four bytes for every three words.
allowed_bytes :
    (n : ℕ)
    → is_allowed n allowed_word_lengths ≡ true
    → (n ≡ 3 * (n / 3)) × (n / 3 ≤ 8) × (is_allowed (4 * (n / 3)) allowed_entropy_lengths ≡ true)
allowed_bytes n h = elim (allowed_words_lem n h) [
  | inl e ↦ rw e (refl, omega arith, refl)
  | inr (inl e) ↦ rw e (refl, omega arith, refl)
  | inr (inr (inl e)) ↦ rw e (refl, omega arith, refl)
  | inr (inr (inr (inl e))) ↦ rw e (refl, omega arith, refl)
  | inr (inr (inr (inr e))) ↦ rw e (refl, omega arith, refl)
]

length-concat : (ps : List Text) → All (IsPiece 11) ps → length (concat ps) ≡ 11 * length ps
length-concat [] h = refl
length-concat (p ∷ ps) (hp, h) =
    omega (arith, length-append p (concat ps), hp.0, length-concat ps h)

concat-IsBit : (ps : List Text) → All (IsPiece 11) ps → All IsBit (concat ps)
concat-IsBit [] h = tt
concat-IsBit (p ∷ ps) (hp, h) = All-append IsBit p (concat ps) hp.1 (concat-IsBit ps h)

-- What passes the checks of the entropy spells the bits, with the checksum.
entropy_of_bits_sound :
    (sha256 : Bytes → Bytes) (k : ℕ) (s : Text) (e : Bytes)
    → All IsBit s
    → length s ≡ 33 * k
    → entropy_of_bits sha256 s ≡ ok e
    → (bytes_to_bitstring e ++ derive_checksum_bits sha256 e ≡ s) × (length e ≡ 4 * k)
unfolding entropy_of_bits
entropy_of_bits_sound sha256 k s e h size valid =
    let divider = length s / 33 * 32 in
    let entropy = map bitstring_to_byte (chunks 8 (take divider s)) in
    let (spelt, count) =
      bytes_to_bitstring-chunks (4 * k) (take divider s) (All-take divider s h)
        (omega (arith, length-take divider s)) in
    elim (Bool-cases
      (ltb (length entropy) 16 || ltb 32 (length entropy) || not (length entropy % 4 == 0))) [
        | inl bad ↦ let failed : throws "Invalid entropy" ≡ ok e = rw bad at valid in cc
        | inr good ↦
            elim (Bool-cases (text_eq (derive_checksum_bits sha256 entropy) (drop divider s))) [
              | inl same ↦
                  let passed : ok entropy ≡ ok e = rw (good, same) at valid in
                  let is_entropy : entropy ≡ e = cc in
                  rw (← is_entropy) (
                    rw
                        (
                          spelt,
                          text_eq_sound (derive_checksum_bits sha256 entropy) (drop divider s) same,
                        )
                        (take-append-drop divider s),
                    count,
                  )
              | inr other ↦
                  let failed : throws "Invalid mnemonic checksum" ≡ ok e =
                    rw (good, other) at valid in
                  cc
            ]
      ]

encode_words :
    (sha256 : Bytes → Bytes) (ws : List Text) (s : Text) (e : Bytes)
    → is_allowed (length ws) allowed_word_lengths ≡ true
    → words_bits ws ≡ ok s
    → entropy_of_bits sha256 s ≡ ok e
    → entropy_to_mnemonic sha256 e ≡ ok (join_words ws)
unfolding entropy_to_mnemonic
encode_words sha256 ws s e allowed read valid =
    let (three, most, four) = allowed_bytes (length ws) allowed in
    let (ps, pieces, joined, words) = words_bits_sound ws s read in
    let is_bit : All IsBit s = rw joined at (concat-IsBit ps pieces) in
    let count : length ps ≡ length ws = sym (length-map ps word_of) ∙ ap length words in
    let size : length s ≡ 33 * (length ws / 3) =
      omega (arith, ap length joined, length-concat ps pieces, count) in
    let (spelt, bytes) = entropy_of_bits_sound sha256 (length ws / 3) s e is_bit size valid in
    rw (bytes, four, spelt, ← joined, full_chunks-concat ps pieces, words) refl

-- A mnemonic that is decoded, in its normal form, is the one that its entropy is encoded as. So no
-- two normal forms are read as the same entropy.
pub decode-encode :
    (sha256 : Bytes → Bytes) (normalize : Text → Text) (mnemonic : Text) (e : Bytes)
    → decode sha256 normalize mnemonic ≡ ok e
    → entropy_to_mnemonic sha256 e ≡ ok (normalize mnemonic)
unfolding decode mnemonic_to_entropy
decode-encode sha256 normalize mnemonic e h =
    let ws = split b' ' (normalize mnemonic) in
    elim (Bool-cases (is_allowed (length ws) allowed_word_lengths)) [
      | inl allowed ↦ elim (Result-cases (words_bits ws)) [
        | inl (s, read) ↦
            encode_words sha256 ws s e allowed read (rw (allowed, read) at h)
            ∙ ap ok (join_words-split (normalize mnemonic))
        | inr (m, k) ↦ let failed : throws m ≡ ok e = rw (allowed, k) at h in cc
      ]
      | inr other ↦ let failed : throws "Invalid number of words" ≡ ok e = rw other at h in cc
    ]
