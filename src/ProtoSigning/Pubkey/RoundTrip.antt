-- ===== src/ProtoSigning/Pubkey/RoundTrip.antt =====
-- Public keys are read back from protobuf.
use cosmjs.Prelude.{
  ℕ, ◌^◌, ◌<◌, ◌≡◌, refl, true, List, [], ◌∷◌, arith, ◌==◌, length, All, ok, Text, Bytes, IsByte,
  to_decimal,
}
use cosmjs.Prelude.Int.{pos}
use cosmjs.Math.Number.{int_to_string}
use cosmjs.Math.Int53.{uint53, uint53_from_string, uint53_to_string, to_string}
use cosmjs.Math.Int53.Strings.{uint53_from_string-to_string}
use cosmjs.Encoding.Base64.{Base64Js, to_base64, from_base64, from_base64-to_base64}
use cosmjs.Amino.Binary.{
  Pubkey, Pubkeys, secp256k1, ed25519, sr25519, multisig_threshold, other, none_left, key,
  is_compressed, encode_secp256k1_pubkey, encode_ed25519_pubkey,
}
use cosmjs.ProtoSigning.Pubkey.{
  Any, ProtoKeys, secp256k1_url, ed25519_url, legacy_url, encode_pubkey, encode_pubkeys,
  any_to_single_pubkey, all_to_single, decode_pubkey,
}

module _ (b64 : Base64Js) (proto : ProtoKeys) where
  -- A single key as the decoder writes it: the base64 text of a compressed key, or of 32 bytes.
  pub data IsSingle : Pubkey → Type 0 where
    a_secp256k1 :
        {value : Text} (raw : Bytes)
        → value ≡ to_base64 b64 raw
        → is_compressed raw ≡ true
        → All IsByte raw
        → IsSingle (secp256k1 value)
    an_ed25519 :
        {value : Text} (raw : Bytes)
        → value ≡ to_base64 b64 raw
        → length raw ≡ 32
        → All IsByte raw
        → IsSingle (ed25519 value)

  pub data AllSingle : Pubkeys → Type 0 where
    no_more : AllSingle none_left
    and_more : {p : Pubkey} {ps : Pubkeys} → IsSingle p → AllSingle ps → AllSingle (key p ps)

  -- A single key, or a multisig key of single keys whose threshold is the decimal notation of a
  -- number below 2^32.
  pub data IsCanonical : Pubkey → Type 0 where
    a_single : {p : Pubkey} → IsSingle p → IsCanonical p
    a_multisig :
        {threshold : Text} {ps : Pubkeys} (k : ℕ)
        → threshold ≡ to_decimal k
        → k < 2 ^ 32
        → AllSingle ps
        → IsCanonical (multisig_threshold threshold ps)

  -- What a single key is encoded as, with both ways to decode it.
  abbrev SingleBack : Pubkey → Type 0
  SingleBack p =
      (any : Any) × (encode_pubkey b64 proto p ≡ ok any)
      × (any_to_single_pubkey b64 proto any ≡ ok p)
      × (decode_pubkey b64 proto any ≡ ok p)

  single_back : (p : Pubkey) → IsSingle p → SingleBack p
  unfolding encode_pubkey any_to_single_pubkey decode_pubkey encode_secp256k1_pubkey
      encode_ed25519_pubkey
  single_back (secp256k1 value) (a_secp256k1 raw e compressed bytes) =
      let back : from_base64 b64 value ≡ ok raw = rw e (from_base64-to_base64 b64 raw bytes) in
      (
        record { type_url = secp256k1_url; value = proto.encode_secp256k1_key raw },
        rw back refl,
        rw (proto.secp256k1_law raw, compressed, e) refl,
        rw (proto.secp256k1_law raw, compressed, e) refl,
      )
  single_back (ed25519 value) (an_ed25519 raw e size bytes) =
      let back : from_base64 b64 value ≡ ok raw = rw e (from_base64-to_base64 b64 raw bytes) in
      let sized : (length raw == 32) ≡ true = ground arith in
      (
        record { type_url = ed25519_url; value = proto.encode_ed25519_key raw },
        rw back refl,
        rw (proto.ed25519_law raw, sized, e) refl,
        rw (proto.ed25519_law raw, sized, e) refl,
      )
  single_back (sr25519 value) h = elim h [ ]
  single_back (multisig_threshold threshold ps) h = elim h [ ]
  single_back (other type) h = elim h [ ]

  all_back :
      (ps : Pubkeys)
      → AllSingle ps
      → (keys : List Any) × (encode_pubkeys b64 proto ps ≡ ok keys)
        × (all_to_single b64 proto keys ≡ ok ps)
  unfolding encode_pubkeys all_to_single
  all_back none_left no_more = ([], refl, refl)
  all_back (key p ps) (and_more h hs) =
      let (any, there, back, also) = single_back p h in
      let (keys, all_there, all_gone_back) = all_back ps hs in
      (any ∷ keys, rw (there, all_there) refl, rw (back, all_gone_back) refl)

  threshold_lem : (k : ℕ) → k < 2 ^ 32 → uint53_from_string (to_decimal k) ≡ ok (uint53 k)
  threshold_lem k small =
      unfold uint53_to_string to_string int_to_string in
      uint53_from_string-to_string k (omega arith)

  -- A single key with a valid value, or a multisig key of such keys with a threshold below 2^32, is
  -- read back from its protobuf form.
  pub decode_pubkey-encode_pubkey :
      (p : Pubkey)
      → IsCanonical p
      → (any : Any) × (encode_pubkey b64 proto p ≡ ok any) × (decode_pubkey b64 proto any ≡ ok p)
  unfolding encode_pubkey decode_pubkey
  decode_pubkey-encode_pubkey p (a_single h) =
      let (any, there, back, also) = single_back p h in (any, there, also)
  decode_pubkey-encode_pubkey (multisig_threshold threshold ps) (a_multisig k e small h) =
      let (keys, there, back) = all_back ps h in
      let read : uint53_from_string threshold ≡ ok (uint53 k) = rw e (threshold_lem k small) in
      (
        record { type_url = legacy_url; value = proto.encode_legacy (pos k) keys },
        rw (read, there) refl,
        unfold int_to_string in rw (proto.legacy_law k keys small, back, e) refl,
      )
