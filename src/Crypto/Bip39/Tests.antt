-- ===== src/Crypto/Bip39/Tests.antt =====
-- bip39.ts on the mnemonic of sixteen zero bytes.
use cosmjs.Prelude.{
  ◌≡◌, refl, arith, replicate, ok, throws, Text, Bytes, codes, split, replicate-IsByte,
}
use cosmjs.Crypto.Bip39.Wordlist.{wordlist}
use cosmjs.Crypto.Bip39.{
  encode, decode, entropy_to_mnemonic, english_mnemonic, mnemonic_to_entropy, words_bits, word_bits,
  index_of, entropy_of_bits, chunks, full_chunks, to_binary, derive_checksum_bits,
  bytes_to_bitstring, bitstring_to_byte, join_words, in_wordlist,
}
use cosmjs.Crypto.Bip39.RoundTrip.{IsHash, encode-decode}
use cosmjs.Crypto.Bip39.Decoding.{decode-encode}

-- Stands for SHA-256.
abbrev stand_in : Bytes → Bytes
stand_in bytes = replicate 32 0x37

stand_in-IsHash : (bytes : Bytes) → IsHash (stand_in bytes)
stand_in-IsHash bytes = (refl, replicate-IsByte 32 0x37 (omega arith))

abbrev same_text : Text → Text
same_text s = s

abbrev zeros : Bytes
zeros = replicate 16 0

abbrev about : Text
about =
    codes
      "abandon abandon abandon abandon abandon abandon abandon abandon abandon abandon abandon about"

encode-zeros : encode stand_in same_text zeros ≡ ok about
unfolding encode entropy_to_mnemonic english_mnemonic full_chunks join_words in_wordlist
    mnemonic_to_entropy split words_bits word_bits index_of wordlist entropy_of_bits chunks
    to_binary derive_checksum_bits bytes_to_bitstring bitstring_to_byte
encode-zeros = refl

decode-about : decode stand_in same_text about ≡ ok zeros
unfolding decode mnemonic_to_entropy split words_bits word_bits index_of wordlist entropy_of_bits
    chunks to_binary derive_checksum_bits bytes_to_bitstring bitstring_to_byte
decode-about = refl

decode_too_few :
    decode stand_in same_text (codes "abandon about") ≡ throws "Invalid number of words"
unfolding decode mnemonic_to_entropy split
decode_too_few = refl

encode-decode_example :
    (mnemonic : Text) × (encode stand_in same_text zeros ≡ ok mnemonic)
    × (decode stand_in same_text mnemonic ≡ ok zeros)
encode-decode_example =
    encode-decode stand_in same_text stand_in-IsHash (λ s h. refl) zeros
      (replicate-IsByte 16 0 (omega arith)) refl

decode-encode_example : entropy_to_mnemonic stand_in zeros ≡ ok (same_text about)
decode-encode_example = decode-encode stand_in same_text about zeros decode-about
