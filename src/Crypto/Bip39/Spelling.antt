-- ===== src/Crypto/Bip39/Spelling.antt =====
-- The words of bit strings, joined by spaces.
use cosmjs.Prelude.{
  ℕ, ◌<◌, ◌≡◌, refl, ap, ◌∙◌, true, false, List, [], ◌∷◌, ◌++◌, map, arith, ◌==◌, all, All,
  All-append, ok, Text, split,
}
use cosmjs.Crypto.Bip39.{
  concat, bitstring_to_byte, word_at, join_words, word_bits, words_bits, is_lower, is_lower_word,
  in_wordlist,
}
use cosmjs.Crypto.Bip39.Bits.{index_bits, bits-bitstring_to_byte}
use cosmjs.Crypto.Bip39.Chunks.{IsPiece}
use cosmjs.Crypto.Bip39.Words.{index_of-wordlist, is_lower_word-wordlist}

-- The word of eleven bits.
abbrev pub word_of : Text → Text
word_of piece = word_at (bitstring_to_byte piece)

word_bits-word_of : (p : Text) → IsPiece 11 p → word_bits (word_of p) ≡ ok p
unfolding word_bits
word_bits-word_of p (size, h) =
    let (same, less) = bits-bitstring_to_byte p 11 h size in
    rw (index_of-wordlist (bitstring_to_byte p) less, index_bits (bitstring_to_byte p) less, same)

pub words_bits-word_of :
    (ps : List Text) → All (IsPiece 11) ps → words_bits (map word_of ps) ≡ ok (concat ps)
unfolding words_bits
words_bits-word_of [] h = refl
words_bits-word_of (p ∷ ps) (hp, h) = rw (word_bits-word_of p hp, words_bits-word_of ps h)

word_of-lower : (p : Text) → IsPiece 11 p → is_lower_word (word_of p) ≡ true
word_of-lower p (size, h) =
    is_lower_word-wordlist (bitstring_to_byte p) (bits-bitstring_to_byte p 11 h size).1

in_wordlist-word_of : (p : Text) → IsPiece 11 p → in_wordlist (word_of p) ≡ true
unfolding in_wordlist
in_wordlist-word_of p (size, h) =
    rw (index_of-wordlist (bitstring_to_byte p) (bits-bitstring_to_byte p 11 h size).1) refl

pub known_words : (ps : List Text) → All (IsPiece 11) ps → all in_wordlist (map word_of ps) ≡ true
known_words [] h = refl
known_words (p ∷ ps) (hp, h) = rw (in_wordlist-word_of p hp, known_words ps h)

pub lower_words : (ps : List Text) → All (IsPiece 11) ps → all is_lower_word (map word_of ps) ≡ true
lower_words [] h = refl
lower_words (p ∷ ps) (hp, h) = rw (word_of-lower p hp, lower_words ps h)

-- Words without spaces are split where they were joined.
split_lower : (s : Text) → all is_lower s ≡ true → split b' ' s ≡ s ∷ []
unfolding split
split_lower [] h = refl
split_lower (c ∷ s) h =
    let e : (c == b' ') ≡ false = ground arith in rw (e, split_lower s (ground arith))

split_joined : (s t : Text) → all is_lower s ≡ true → split b' ' (s ++ b' ' ∷ t) ≡ s ∷ split b' ' t
unfolding split
split_joined [] t h = refl
split_joined (c ∷ s) t h =
    let e : (c == b' ') ≡ false = ground arith in rw (e, split_joined s t (ground arith))

lower_of_word : (w : Text) → is_lower_word w ≡ true → all is_lower w ≡ true
lower_of_word [] h = refl
lower_of_word (c ∷ s) h = h

pub split-join_words :
    (w : Text) (ws : List Text)
    → all is_lower_word (w ∷ ws) ≡ true
    → split b' ' (join_words (w ∷ ws)) ≡ w ∷ ws
unfolding join_words
split-join_words w [] h = split_lower w (lower_of_word w (ground arith))
split-join_words w (v ∷ ws) h =
    split_joined w (join_words (v ∷ ws)) (lower_of_word w (ground arith))
    ∙ ap (λ t. w ∷ t) (split-join_words v ws (ground arith))

-- A mnemonic is ASCII.
abbrev pub IsAscii : ℕ → Type 0
IsAscii c = c < 128

lower-IsAscii : (s : Text) → all is_lower s ≡ true → All IsAscii s
lower-IsAscii [] h = tt
lower-IsAscii (c ∷ s) h = (ground arith, lower-IsAscii s (ground arith))

pub join_words-IsAscii :
    (ws : List Text) → all is_lower_word ws ≡ true → All IsAscii (join_words ws)
unfolding join_words
join_words-IsAscii [] h = tt
join_words-IsAscii (w ∷ []) h = lower-IsAscii w (lower_of_word w (ground arith))
join_words-IsAscii (w ∷ v ∷ ws) h =
    All-append IsAscii w (b' ' ∷ join_words (v ∷ ws))
      (lower-IsAscii w (lower_of_word w (ground arith)))
      (omega arith, join_words-IsAscii (v ∷ ws) (ground arith))
