-- ===== src/CosmWasm/Instantiate2.antt =====
-- packages/cosmwasm-stargate/src/instantiate2.ts. SHA-256, the bech32 encoding, TextEncoder and bn.js
-- are parameters.
pub mod Injective
mod Tests
use cosmjs.Prelude.{
  ℕ, ◌+◌, not, ◌||◌, Option, none, some, [], ◌∷◌, ◌++◌, ltb, ◌==◌, length, Result, ◌>>=◌, ◌>>◌,
  throw_if, ok, Text, Bytes, codes, failed,
}
use cosmjs.Prelude.Int.{pos}
use cosmjs.Math.Number.{int}
use cosmjs.Math.BigNumber.{BigNumber}
use cosmjs.Math.Uint64.{from_number, to_bytes_big_endian}
use cosmjs.Encoding.Ascii.{to_ascii}

module _ (bn : BigNumber) where
  unfoldable pub to_uint64 : ℕ → Result Bytes
  to_uint64 n = do u ← from_number bn (int (pos n)); ok (to_bytes_big_endian bn u)

  -- The bytes that are hashed.
  unfoldable pub key_of : Bytes → Bytes → Bytes → Bytes → Result Bytes
  key_of checksum creator_data salt msg_data = do
    wasm ← to_ascii (codes "wasm")
    checksum_size ← to_uint64 (length checksum)
    creator_size ← to_uint64 (length creator_data)
    salt_size ← to_uint64 (length salt)
    msg_size ← to_uint64 (length msg_data)
    ok (
        wasm
        ++ (0
            ∷ (checksum_size
                ++ (checksum
                    ++ (creator_size
                        ++ (creator_data ++ (salt_size ++ (salt ++ (msg_size ++ msg_data)))))))))

module _ (bn : BigNumber) (sha256 : Bytes → Bytes) (to_utf8 : Text → Bytes)
    (from_bech32 : Text → Result (Text × Bytes)) (to_bech32 : Text → Bytes → Text) where
  unfoldable pub hash : Text → Bytes → Result Bytes
  hash type key = do ascii ← to_ascii type; ok (sha256 (sha256 ascii ++ key))

  abbrev pub msg_bytes : Option Text → Bytes
  msg_bytes none = []
  msg_bytes (some msg) = to_utf8 msg

  -- `_instantiate2AddressIntermediate`: the key, the data of the address and the address.
  unfoldable pub instantiate2_address_intermediate :
      Bytes → Text → Bytes → Option Text → Text → Result (Bytes × Bytes × Text)
  instantiate2_address_intermediate checksum creator salt msg prefix = do
    throw_if (not (length checksum == 32)) "Assertion failed"
    (creator_prefix, creator_data) ← from_bech32 creator
    throw_if (ltb (length salt) 1 || ltb 64 (length salt)) "Salt must be between 1 and 64 bytes"
    key ← key_of bn checksum creator_data salt (msg_bytes msg)
    address_data ← hash (codes "module") key
    ok (key, address_data, to_bech32 prefix address_data)

  unfoldable pub instantiate2_address : Bytes → Text → Bytes → Text → Result Text
  instantiate2_address checksum creator salt bech32_prefix = do
    (key, address_data, address) ←
        instantiate2_address_intermediate checksum creator salt none bech32_prefix
    ok address
