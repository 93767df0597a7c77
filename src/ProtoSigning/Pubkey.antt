-- ===== src/ProtoSigning/Pubkey.antt =====
-- packages/proto-signing/src/pubkey.ts. The codecs of cosmjs-types, generated from protobuf, are a
-- parameter.
pub mod RoundTrip
pub mod StandIn
mod Tests
use cosmjs.Prelude.{
  ℕ, ◌/◌, ◌^◌, ◌<◌, ◌≡◌, not, ◌||◌, Option, none, some, List, [], ◌∷◌, if◌then◌else◌, set, Result,
  ◌>>=◌, ◌>>◌, ok, throws, Text, Bytes, codes, text_eq,
}
use cosmjs.Prelude.Int.{ℤ, pos}
use cosmjs.Math.Number.{int_to_string}
use cosmjs.Math.Int53.{uint53_from_string, to_number}
use cosmjs.Encoding.Base64.{Base64Js, from_base64}
use cosmjs.Amino.Binary.{
  Pubkey, Pubkeys, secp256k1, ed25519, sr25519, multisig_threshold, other, none_left, key,
  encode_secp256k1_pubkey, encode_ed25519_pubkey,
}

pub record Any : Type 0 where
  pub type_url : Text
  pub value : Bytes

-- `encode` and `decode` of the three types: the two keys of cosmos.crypto, and LegacyAminoPubKey with
-- a threshold of 32 bits. What is encoded is decoded.
pub record ProtoKeys : Type 0 where
  pub encode_secp256k1_key : Bytes → Bytes
  pub decode_secp256k1_key : Bytes → Result Bytes
  pub encode_ed25519_key : Bytes → Bytes
  pub decode_ed25519_key : Bytes → Result Bytes
  pub encode_legacy : ℤ → List Any → Bytes
  pub decode_legacy : Bytes → Result (ℤ × List Any)
  pub secp256k1_law : (bs : Bytes) → decode_secp256k1_key (encode_secp256k1_key bs) ≡ ok bs
  pub ed25519_law : (bs : Bytes) → decode_ed25519_key (encode_ed25519_key bs) ≡ ok bs
  pub legacy_law :
      (n : ℕ) (keys : List Any)
      → n < 2 ^ 32
      → decode_legacy (encode_legacy (pos n) keys) ≡ ok (pos n, keys)

abbrev pub secp256k1_url : Text
secp256k1_url = codes "/cosmos.crypto.secp256k1.PubKey"

abbrev pub ed25519_url : Text
ed25519_url = codes "/cosmos.crypto.ed25519.PubKey"

abbrev pub legacy_url : Text
legacy_url = codes "/cosmos.crypto.multisig.LegacyAminoPubKey"

module _ (b64 : Base64Js) (proto : ProtoKeys) where
  open proto use {
    encode_secp256k1_key, decode_secp256k1_key, encode_ed25519_key, decode_ed25519_key,
    encode_legacy, decode_legacy,
  }

  unfoldable mutual
    pub encode_pubkey : Pubkey → Result Any
    encode_pubkey (secp256k1 value) = do
      raw ← from_base64 b64 value
      ok (record { type_url = secp256k1_url; value = encode_secp256k1_key raw })
    encode_pubkey (ed25519 value) = do
      raw ← from_base64 b64 value
      ok (record { type_url = ed25519_url; value = encode_ed25519_key raw })
    encode_pubkey (multisig_threshold threshold pubkeys) = do
      checked ← uint53_from_string threshold
      public_keys ← encode_pubkeys pubkeys
      ok (record { type_url = legacy_url; value = encode_legacy (to_number checked) public_keys })
    encode_pubkey (sr25519 value) = throws "Pubkey type not recognized"
    encode_pubkey (other type) = throws "Pubkey type not recognized"

    -- `pubkeys.map(encodePubkey)`
    pub encode_pubkeys : Pubkeys → Result (List Any)
    encode_pubkeys none_left = ok []
    encode_pubkeys (key pubkey pubkeys) = do
      first ← encode_pubkey pubkey
      more ← encode_pubkeys pubkeys
      ok (first ∷ more)

  unfoldable pub any_to_single_pubkey : Any → Result Pubkey
  any_to_single_pubkey pubkey =
      if text_eq pubkey.type_url secp256k1_url
      then (do raw ← decode_secp256k1_key pubkey.value; encode_secp256k1_pubkey b64 raw)
      else if text_eq pubkey.type_url ed25519_url
      then (do raw ← decode_ed25519_key pubkey.value; encode_ed25519_pubkey b64 raw)
      else throws "Pubkey type_url not recognized as single public key type"

  -- `publicKeys.map(anyToSinglePubkey)`
  unfoldable pub all_to_single : List Any → Result Pubkeys
  all_to_single [] = ok none_left
  all_to_single (first ∷ more) = do
    pubkey ← any_to_single_pubkey first
    pubkeys ← all_to_single more
    ok (key pubkey pubkeys)

  unfoldable pub decode_pubkey : Any → Result Pubkey
  decode_pubkey pubkey =
      if text_eq pubkey.type_url secp256k1_url || text_eq pubkey.type_url ed25519_url
      then any_to_single_pubkey pubkey
      else if text_eq pubkey.type_url legacy_url
      then (do
        (threshold, public_keys) ← decode_legacy pubkey.value
        pubkeys ← all_to_single public_keys
        ok (multisig_threshold (int_to_string threshold) pubkeys))
      else throws "Pubkey type URL not recognized"

  -- The two tests of `decodeOptionalPubkey`, on the type URL and the value.
  abbrev pub decode_parts : Text → Bytes → Result (Option Pubkey)
  decode_parts [] [] = ok none
  decode_parts [] (b ∷ bs) = throws "Pubkey is an Any with an empty type URL but a value set"
  decode_parts (c ∷ url) [] = throws "Pubkey is an Any with a type URL but an empty value"
  decode_parts (c ∷ url) (b ∷ bs) = do
    pubkey ← decode_pubkey (record { type_url = c ∷ url; value = b ∷ bs })
    ok (some pubkey)

  -- `Pubkey | null` of an optional `Any`.
  unfoldable pub decode_optional_pubkey : Option Any → Result (Option Pubkey)
  decode_optional_pubkey none = ok none
  decode_optional_pubkey (some pubkey) = decode_parts pubkey.type_url pubkey.value
