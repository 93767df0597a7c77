-- ===== src/Amino/Binary.antt =====
-- packages/amino/src/encoding.ts and pubkeys.ts: public keys in the Amino binary format.
pub mod Uvarint
pub mod RoundTrip
pub mod Fuel
pub mod Total
mod Tests
use Prim.Native.String.{String}
use cosmjs.Prelude.{
  ℕ, zero, suc, ◌+◌, Bool, false, not, ◌&&◌, ◌||◌, List, [], ◌∷◌, ◌++◌, ltb, ◌==◌, if◌then◌else◌,
  length, take, drop, Result, ◌>>=◌, ◌>>◌, throw_if, ok, throws, Text, Bytes, to_decimal,
  out_of_fuel,
}
use cosmjs.Prelude.Int.{ℤ, pos, negsuc}
use cosmjs.Math.Int53.{Uint53, uint53_from_string, to_number}
use cosmjs.Utils.Arrays.{array_content_starts_with}
use cosmjs.Encoding.Base64.{Base64Js, to_base64, from_base64}

-- A public key by its `type`: the value is a base64 text, or the threshold with the keys.
mutual
  pub data Pubkey : Type 0 where
    secp256k1 : Text → Pubkey
    ed25519 : Text → Pubkey
    sr25519 : Text → Pubkey
    multisig_threshold : Text → Pubkeys → Pubkey
    -- a type that `pubkeyType` does not list
    other : Text → Pubkey

  pub data Pubkeys : Type 0 where
    none_left : Pubkeys
    key : Pubkey → Pubkeys → Pubkeys

abbrev pub prefix_secp256k1 : Bytes
prefix_secp256k1 = 0xeb ∷ 0x5a ∷ 0xe9 ∷ 0x87 ∷ 0x21 ∷ []

abbrev pub prefix_ed25519 : Bytes
prefix_ed25519 = 0x16 ∷ 0x24 ∷ 0xde ∷ 0x64 ∷ 0x20 ∷ []

abbrev pub prefix_sr25519 : Bytes
prefix_sr25519 = 0x0d ∷ 0xfb ∷ 0x10 ∷ 0x05 ∷ 0x20 ∷ []

abbrev pub prefix_multisig_threshold : Bytes
prefix_multisig_threshold = 0x22 ∷ 0xc1 ∷ 0xf7 ∷ 0xe2 ∷ []

abbrev pub is_compressed : Bytes → Bool
is_compressed [] = false
is_compressed (b ∷ bs) = length (b ∷ bs) == 33 && (b == 0x02 || b == 0x03)

-- `decodeUvarint`; it reads one byte.
unfoldable pub decode_uvarint : Bytes → Result ℕ
decode_uvarint [] = throws "Can't decode varint. EOF"
decode_uvarint (b ∷ bs) =
    if ltb 127 b then throws "Decoding numbers > 127 is not supported here." else ok b

abbrev small_number : ℤ → Result Bytes
small_number (pos n) =
    if ltb 127 n then throws "Encoding numbers > 127 is not supported here." else ok (n ∷ [])
small_number (negsuc n) = ok []

-- `encodeUvarint` of the text of a number. A Uint53 is never negative.
unfoldable pub encode_uvarint : Text → Result Bytes
encode_uvarint value = do checked ← uint53_from_string value; small_number (to_number checked)

-- `reader.shift() != expected`: false on an empty reader.
abbrev pub starts_with_byte : ℕ → Bytes → Bool
starts_with_byte expected [] = false
starts_with_byte expected (b ∷ bs) = b == expected

-- The second loop of `encodeAminoPubkey`: each key behind 0x12 and its length.
unfoldable pub frame : List Bytes → Result Bytes
frame [] = ok []
frame (pubkey_data ∷ more) = do
  size ← encode_uvarint (to_decimal (length pubkey_data))
  rest ← frame more
  ok (0x12 ∷ (size ++ pubkey_data ++ rest))

abbrev framed : Text → Result (List Bytes) → Result Bytes
framed threshold parts = do
  t ← encode_uvarint threshold
  encoded ← parts
  rest ← frame encoded
  ok (prefix_multisig_threshold ++ 0x08 ∷ (t ++ rest))

module _ (b64 : Base64Js) where
  unfoldable pub encode_secp256k1_pubkey : Bytes → Result Pubkey
  encode_secp256k1_pubkey pubkey = do
    throw_if (not (is_compressed pubkey))
        "Public key must be compressed secp256k1, i.e. 33 bytes starting with 0x02 or 0x03"
    ok (secp256k1 (to_base64 b64 pubkey))

  unfoldable pub encode_ed25519_pubkey : Bytes → Result Pubkey
  encode_ed25519_pubkey pubkey = do
    throw_if (not (length pubkey == 32)) "Ed25519 public key must be 32 bytes long"
    ok (ed25519 (to_base64 b64 pubkey))

  -- The rest behind a prefix of five bytes, if it has the length of the key.
  unfoldable pub fixed_rest : ℕ → String → (Text → Pubkey) → Bytes → Result Pubkey
  fixed_rest size message make bytes = do
    let rest = drop 5 bytes
    throw_if (not (length rest == size)) message
    ok (make (to_base64 b64 rest))

  -- `decodeAminoPubkey` and the loop of `decodeMultisigPubkey`. The number bounds the depth of
  -- the calls; the length of the data is enough.
  unfoldable mutual
    pub decode_pubkey : ℕ → Bytes → Result Pubkey
    decode_pubkey zero bytes = throws out_of_fuel
    decode_pubkey (suc fuel) bytes =
        let participants = decode_participants fuel (drop 6 bytes) in
        if array_content_starts_with bytes prefix_secp256k1
        then fixed_rest 33
            "Invalid rest data length. Expected 33 bytes (compressed secp256k1 pubkey)." secp256k1
            bytes
        else if array_content_starts_with bytes prefix_ed25519
        then fixed_rest 32 "Invalid rest data length. Expected 32 bytes (Ed25519 pubkey)." ed25519
            bytes
        else if array_content_starts_with bytes prefix_sr25519
        then fixed_rest 32 "Invalid rest data length. Expected 32 bytes (Sr25519 pubkey)." sr25519
            bytes
        else if array_content_starts_with bytes prefix_multisig_threshold
        then (do
          throw_if (not (starts_with_byte 0x08 (drop 4 bytes)))
              "Invalid multisig data. Expecting 0x08 prefix before threshold."
          threshold ← decode_uvarint (drop 5 bytes)
          pubkeys ← participants
          ok (multisig_threshold (to_decimal threshold) pubkeys))
        else throws "Unsupported public key type. Amino data starts with"

    pub decode_participants : ℕ → Bytes → Result Pubkeys
    decode_participants zero reader = throws out_of_fuel
    decode_participants (suc fuel) [] = ok none_left
    decode_participants (suc fuel) (b ∷ reader) = do
      throw_if (not (b == 0x12))
          "Invalid multisig data. Expecting 0x12 prefix before participant pubkey length."
      pubkey_length ← decode_uvarint reader
      let body = drop 1 reader
      throw_if (ltb (length body) pubkey_length) "Invalid multisig data length."
      pubkey ← decode_pubkey fuel (take pubkey_length body)
      pubkeys ← decode_participants fuel (drop pubkey_length body)
      ok (key pubkey pubkeys)

  unfoldable pub decode_amino_pubkey : Bytes → Result Pubkey
  decode_amino_pubkey bytes = decode_pubkey (suc (length bytes)) bytes

  unfoldable mutual
    pub encode_amino_pubkey : Pubkey → Result Bytes
    encode_amino_pubkey (multisig_threshold threshold pubkeys) =
        framed threshold (encode_all pubkeys)
    encode_amino_pubkey (ed25519 value) = do raw ← from_base64 b64 value; ok (prefix_ed25519 ++ raw)
    encode_amino_pubkey (secp256k1 value) = do
      raw ← from_base64 b64 value
      ok (prefix_secp256k1 ++ raw)
    encode_amino_pubkey (sr25519 value) = throws "Unsupported pubkey type"
    encode_amino_pubkey (other type) = throws "Unsupported pubkey type"

    -- `pubkeys.map((p) => encodeAminoPubkey(p))`
    pub encode_all : Pubkeys → Result (List Bytes)
    encode_all none_left = ok []
    encode_all (key p ps) = do
      first ← encode_amino_pubkey p
      more ← encode_all ps
      ok (first ∷ more)
