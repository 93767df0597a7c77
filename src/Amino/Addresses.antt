-- ===== src/Amino/Addresses.antt =====
-- packages/amino/src/addresses.ts: SHA-256, RIPEMD-160 and the bech32 encoding are parameters.
use cosmjs.Prelude.{not, ◌==◌, length, take, Result, ◌>>=◌, ◌>>◌, throw_if, ok, throws, Text, Bytes}
use cosmjs.Encoding.Base64.{Base64Js, from_base64}
use cosmjs.Amino.Binary.{
  Pubkey, secp256k1, ed25519, sr25519, multisig_threshold, other, encode_amino_pubkey,
}

module _ (sha256 ripemd160 : Bytes → Bytes) where
  unfoldable pub raw_ed25519_pubkey_to_raw_address : Bytes → Result Bytes
  raw_ed25519_pubkey_to_raw_address pubkey_data = do
    throw_if (not (length pubkey_data == 32)) "Invalid Ed25519 pubkey length"
    ok (take 20 (sha256 pubkey_data))

  unfoldable pub raw_secp256k1_pubkey_to_raw_address : Bytes → Result Bytes
  raw_secp256k1_pubkey_to_raw_address pubkey_data = do
    throw_if (not (length pubkey_data == 33)) "Invalid Secp256k1 pubkey length (compressed)"
    ok (ripemd160 (sha256 pubkey_data))

  unfoldable pub pubkey_to_raw_address : Base64Js → Pubkey → Result Bytes
  pubkey_to_raw_address b64 (secp256k1 value) = do
    pubkey_data ← from_base64 b64 value
    raw_secp256k1_pubkey_to_raw_address pubkey_data
  pubkey_to_raw_address b64 (ed25519 value) = do
    pubkey_data ← from_base64 b64 value
    raw_ed25519_pubkey_to_raw_address pubkey_data
  pubkey_to_raw_address b64 (multisig_threshold threshold pubkeys) = do
    pubkey_data ← encode_amino_pubkey b64 (multisig_threshold threshold pubkeys)
    ok (take 20 (sha256 pubkey_data))
  pubkey_to_raw_address b64 (sr25519 value) = throws "Unsupported public key type"
  pubkey_to_raw_address b64 (other type) = throws "Unsupported public key type"

  unfoldable pub pubkey_to_address : Base64Js → (Text → Bytes → Text) → Pubkey → Text → Result Text
  pubkey_to_address b64 to_bech32 pubkey prefix = do
    address ← pubkey_to_raw_address b64 pubkey
    ok (to_bech32 prefix address)
