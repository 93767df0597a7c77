-- ===== src/Amino/Binary/Tests.antt =====
-- Amino keys at concrete bytes.
use cosmjs.Prelude.{◌≡◌, refl, ◌∷◌, arith, replicate, ok, Bytes, value_from, to_decimal, IsFinished}
use cosmjs.Encoding.Base64.{native, to_base64, from_base64, is_base64_format}
use cosmjs.Encoding.Hex.{to_hex, from_hex}
use cosmjs.Math.Number.{parse_int, number_of}
use cosmjs.Math.Int53.{uint53_from_string, is_integer_text, new_int53, parse_signed, new_uint53}
use cosmjs.Amino.Binary.{
  Pubkey, ed25519, multisig_threshold, none_left, key, encode_uvarint, frame, encode_amino_pubkey,
  decode_amino_pubkey, decode_pubkey,
}
use cosmjs.Amino.Binary.RoundTrip.{
  IsCanonical, a_multisig, an_ed25519, and_more, no_more, decode-encode_amino_pubkey,
}
use cosmjs.Amino.Binary.Total.{decode_amino_pubkey_terminates}

-- A multisig key of one Ed25519 key.
abbrev one_of_one : Pubkey
one_of_one =
    multisig_threshold (to_decimal 1) (key (ed25519 (to_base64 native (replicate 32 7))) none_left)

abbrev one_of_one_bytes : Bytes
one_of_one_bytes =
    0x22
    ∷ 0xc1
    ∷ 0xf7
    ∷ 0xe2
    ∷ 0x08
    ∷ 1
    ∷ 0x12
    ∷ 37
    ∷ 0x16
    ∷ 0x24
    ∷ 0xde
    ∷ 0x64
    ∷ 0x20
    ∷ replicate 32 7

one_of_one-IsCanonical : IsCanonical native one_of_one
one_of_one-IsCanonical =
    a_multisig 1 refl (and_more (an_ed25519 (replicate 32 7, refl, refl, omega arith)) no_more)

one_of_one_encoded : encode_amino_pubkey native one_of_one ≡ ok one_of_one_bytes
unfolding encode_amino_pubkey encode_uvarint frame uint53_from_string is_integer_text to_decimal
    new_int53 parse_signed parse_int number_of value_from new_uint53 from_base64 is_base64_format
    to_base64 to_hex from_hex
one_of_one_encoded = refl

decode-encode_amino_pubkey_example : decode_amino_pubkey native one_of_one_bytes ≡ ok one_of_one
decode-encode_amino_pubkey_example =
    decode-encode_amino_pubkey native one_of_one one_of_one_bytes one_of_one-IsCanonical
      one_of_one_encoded

decode_amino_pubkey_terminates_example :
    IsFinished (decode_amino_pubkey native one_of_one_bytes)
    × (decode_pubkey native 100 one_of_one_bytes ≡ decode_amino_pubkey native one_of_one_bytes)
decode_amino_pubkey_terminates_example =
    decode_amino_pubkey_terminates native one_of_one_bytes 100 (omega arith)
