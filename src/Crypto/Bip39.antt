-- ===== src/Crypto/Bip39.antt =====
-- packages/crypto/src/bip39.ts: entropy to mnemonics and back. A bit string is a text of zeros and
-- ones. SHA-256 and `normalize("NFKD")` are parameters.
pub mod Wordlist
pub mod Bits
pub mod Chunks
pub mod Words
pub mod Spelling
pub mod RoundTrip
pub mod Decoding
mod Tests
use Prim.Native.String.{String}
use cosmjs.Prelude.{
  ℕ, zero, suc, ◌+◌, ◌-◌, ◌*◌, ◌/◌, ◌%◌, Bool, true, false, not, ◌&&◌, ◌||◌, Option, none, some,
  List, [], ◌∷◌, ◌++◌, map, ltb, leb, ◌==◌, if◌then◌else◌, length, get_or, take, drop, replicate,
  all, Result, ◌>>=◌, ◌>>◌, throw_if, ok, throws, Text, Bytes, text_eq, split,
}
use cosmjs.Crypto.Bip39.Wordlist.{wordlist}

-- `n.toString(2)`; each digit halves the number, which bounds the recursion.
binary_from : ℕ → ℕ → Text
binary_from zero n = (b'0' + n % 2) ∷ []
binary_from (suc fuel) n =
    let rest = binary_from fuel (n / 2) in
    if ltb n 2 then (b'0' + n) ∷ [] else rest ++ (b'0' + n % 2) ∷ []

unfoldable pub to_binary : ℕ → Text
unfolding binary_from
to_binary n = binary_from n n

-- `s.padStart(n, "0")`
abbrev pub pad_start : Text → ℕ → Text
pad_start s n = replicate (n - length s) b'0' ++ s

-- `join("")`
abbrev pub concat : List Text → Text
concat [] = []
concat (s ∷ ss) = s ++ concat ss

unfoldable pub bytes_to_bitstring : Bytes → Text
bytes_to_bitstring bytes = concat (map (λ b. pad_start (to_binary b) 8) bytes)

-- `parseInt(bin, 2)` of zeros and ones behind `acc`.
unfoldable pub parse_binary : ℕ → Text → ℕ
parse_binary acc [] = acc
parse_binary acc (c ∷ s) = parse_binary (acc * 2 + (c - b'0')) s

unfoldable pub bitstring_to_byte : Text → ℕ
unfolding parse_binary
bitstring_to_byte bin = parse_binary 0 bin

-- `bits.match(/(.{11})/g)`: a rest that is too short is left out. The length of the text bounds the
-- pieces.
full_chunks_from : ℕ → ℕ → Text → List Text
full_chunks_from zero k s = []
full_chunks_from (suc fuel) k s =
    let rest = full_chunks_from fuel k (drop k s) in
    if ltb (length s) k then [] else take k s ∷ rest

unfoldable pub full_chunks : ℕ → Text → List Text
unfolding full_chunks_from
full_chunks k s = full_chunks_from (length s) k s

-- `bits.match(/(.{1,8})/g)`: the last piece may be shorter.
chunks_from : ℕ → ℕ → Text → List Text
chunks_from fuel k [] = []
chunks_from zero k (c ∷ s) = []
chunks_from (suc fuel) k (c ∷ s) = take k (c ∷ s) ∷ chunks_from fuel k (drop k (c ∷ s))

unfoldable pub chunks : ℕ → Text → List Text
unfolding chunks_from
chunks k s = chunks_from (length s) k s

-- `wordlist[index]`; an index below 2048 is there.
abbrev pub word_at : ℕ → Text
word_at index = get_or wordlist index []

-- `wordlist.indexOf(word)`
unfoldable pub index_of : List Text → Text → Option ℕ
index_of [] word = none
index_of (w ∷ ws) word = if text_eq w word then some 0 else next_index (index_of ws word)
  where
    next_index : Option ℕ → Option ℕ
    next_index none = none
    next_index (some i) = some (suc i)

-- `words.join(" ")`
unfoldable pub join_words : List Text → Text
join_words [] = []
join_words (w ∷ []) = w
join_words (w ∷ v ∷ ws) = w ++ b' ' ∷ join_words (v ∷ ws)

abbrev pub is_allowed : ℕ → List ℕ → Bool
is_allowed n [] = false
is_allowed n (m ∷ ms) = n == m || is_allowed n ms

abbrev pub allowed_entropy_lengths : List ℕ
allowed_entropy_lengths = 16 ∷ 20 ∷ 24 ∷ 28 ∷ 32 ∷ []

abbrev pub allowed_word_lengths : List ℕ
allowed_word_lengths = 12 ∷ 15 ∷ 18 ∷ 21 ∷ 24 ∷ []

-- The index of a word as eleven bits.
abbrev pub index_word_bits : Option ℕ → Result Text
index_word_bits none = throws "Found word that is not in the wordlist"
index_word_bits (some index) = ok (pad_start (to_binary index) 11)

unfoldable pub word_bits : Text → Result Text
word_bits word = index_word_bits (index_of wordlist word)

unfoldable pub words_bits : List Text → Result Text
words_bits [] = ok []
words_bits (w ∷ ws) = do s ← word_bits w; rest ← words_bits ws; ok (s ++ rest)

-- `[a-z]+( [a-z]+)*`, read off the words between the spaces.
abbrev pub is_lower : ℕ → Bool
is_lower c = leb b'a' c && leb c b'z'

abbrev pub is_lower_word : Text → Bool
is_lower_word [] = false
is_lower_word (c ∷ s) = is_lower c && all is_lower s

abbrev is_some : Option ℕ → Bool
is_some none = false
is_some (some index) = true

unfoldable pub in_wordlist : Text → Bool
in_wordlist word = is_some (index_of wordlist word)

module _ (sha256 : Bytes → Bytes) where
  unfoldable pub derive_checksum_bits : Bytes → Text
  derive_checksum_bits entropy =
      take (length entropy * 8 / 32) (bytes_to_bitstring (sha256 entropy))

  unfoldable pub entropy_to_mnemonic : Bytes → Result Text
  entropy_to_mnemonic entropy = do
    throw_if (not (is_allowed (length entropy) allowed_entropy_lengths)) "invalid input length"
    let bits = bytes_to_bitstring entropy ++ derive_checksum_bits entropy
    ok (join_words (map (λ binary. word_at (bitstring_to_byte binary)) (full_chunks 11 bits)))

  -- The checks behind the bits of the words.
  unfoldable pub entropy_of_bits : Text → Result Bytes
  entropy_of_bits bits = do
    let divider = length bits / 33 * 32
    let entropy = map bitstring_to_byte (chunks 8 (take divider bits))
    throw_if (ltb (length entropy) 16 || ltb 32 (length entropy) || not (length entropy % 4 == 0))
        "Invalid entropy"
    throw_if (not (text_eq (derive_checksum_bits entropy) (drop divider bits)))
        "Invalid mnemonic checksum"
    ok entropy

module _ (sha256 : Bytes → Bytes) (normalize : Text → Text) where
  unfoldable pub mnemonic_to_entropy : Text → Result Bytes
  mnemonic_to_entropy mnemonic = do
    let words = split b' ' (normalize mnemonic)
    throw_if (not (is_allowed (length words) allowed_word_lengths)) "Invalid number of words"
    bits ← words_bits words
    entropy_of_bits sha256 bits

  -- The constructor of EnglishMnemonic; the result is its text.
  unfoldable pub english_mnemonic : Text → Result Text
  english_mnemonic mnemonic = do
    let words = split b' ' mnemonic
    throw_if (not (all is_lower_word words)) "Invalid mnemonic format"
    throw_if (not (is_allowed (length words) allowed_word_lengths)) "Invalid word count in mnemonic"
    throw_if (not (all in_wordlist words)) "Mnemonic contains invalid word"
    _ ← mnemonic_to_entropy mnemonic
    ok mnemonic

  -- `Bip39.encode` and `Bip39.decode`
  unfoldable pub encode : Bytes → Result Text
  encode entropy = do mnemonic ← entropy_to_mnemonic sha256 entropy; english_mnemonic mnemonic

  unfoldable pub decode : Text → Result Bytes
  decode mnemonic = mnemonic_to_entropy mnemonic
