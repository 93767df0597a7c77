-- ===== src/Amino/Binary/RoundTrip.antt =====
-- Decoding what was encoded.
use cosmjs.Prelude.{
  ℕ, zero, suc, ◌+◌, ◌≤◌, ◌<◌, ◌≡◌, refl, ap, ◌∙◌, inl, inr, true, false, List, [], ◌∷◌, ◌++◌,
  arith, ltb, ◌==◌, length, length-append, All, take-append, drop-append, Result, Result-cases, ok,
  throws, Text, Bytes, IsByte, to_decimal,
}
use cosmjs.Utils.Arrays.{starts_equal, starts_with_same, starts_with_mismatch}
use cosmjs.Encoding.Base64.{Base64Js, to_base64, from_base64, from_base64-to_base64}
use cosmjs.Amino.Binary.{
  Pubkey, Pubkeys, secp256k1, ed25519, multisig_threshold, none_left, key, prefix_secp256k1,
  prefix_ed25519, prefix_sr25519, prefix_multisig_threshold, encode_uvarint, decode_pubkey,
  decode_participants, decode_amino_pubkey, frame, framed, encode_amino_pubkey, encode_all,
  fixed_rest,
}
use cosmjs.Amino.Binary.Uvarint.{encode_uvarint_sound, decode_uvarint_lem}

module _ (b64 : Base64Js) where
  -- The value is the base64 text of that many bytes.
  abbrev pub IsKeyText : Text → ℕ → Type 0
  IsKeyText value size =
      (raw : Bytes) × (value ≡ to_base64 b64 raw) × (length raw ≡ size) × All IsByte raw

  -- A key as the decoder writes it: a base64 text of a key of the right length, the threshold as
  -- a decimal number with no leading zeros.
  mutual
    pub data IsCanonical : Pubkey → Type 0 where
      a_secp256k1 : {value : Text} → IsKeyText value 33 → IsCanonical (secp256k1 value)
      an_ed25519 : {value : Text} → IsKeyText value 32 → IsCanonical (ed25519 value)
      a_multisig :
          {threshold : Text} {ps : Pubkeys} (k : ℕ)
          → threshold ≡ to_decimal k
          → AllCanonical ps
          → IsCanonical (multisig_threshold threshold ps)

    pub data AllCanonical : Pubkeys → Type 0 where
      no_more : AllCanonical none_left
      and_more :
          {p : Pubkey} {ps : Pubkeys} → IsCanonical p → AllCanonical ps → AllCanonical (key p ps)

  decode_secp256k1 :
      (f : ℕ) (raw : Bytes)
      → length raw ≡ 33
      → decode_pubkey b64 (suc f) (prefix_secp256k1 ++ raw) ≡ ok (secp256k1 (to_base64 b64 raw))
  unfolding decode_pubkey fixed_rest starts_equal
  decode_secp256k1 f raw h =
      let size : (length raw == 33) ≡ true = ground arith in
      rw (starts_with_same prefix_secp256k1 raw, size)

  decode_ed25519 :
      (f : ℕ) (raw : Bytes)
      → length raw ≡ 32
      → decode_pubkey b64 (suc f) (prefix_ed25519 ++ raw) ≡ ok (ed25519 (to_base64 b64 raw))
  unfolding decode_pubkey fixed_rest starts_equal
  decode_ed25519 f raw h =
      let size : (length raw == 32) ≡ true = ground arith in
      rw (
        starts_with_mismatch (prefix_ed25519 ++ raw) prefix_secp256k1 refl,
        starts_with_same prefix_ed25519 raw,
        size,
      )

  decode_multisig :
      (f k : ℕ) (rest : Bytes) (ps : Pubkeys)
      → k ≤ 127
      → decode_participants b64 f rest ≡ ok ps
      → decode_pubkey b64 (suc f) (prefix_multisig_threshold ++ 0x08 ∷ k ∷ rest)
        ≡ ok (multisig_threshold (to_decimal k) ps)
  unfolding decode_pubkey starts_equal
  decode_multisig f k rest ps small e =
      let bytes = prefix_multisig_threshold ++ 0x08 ∷ k ∷ rest in
      rw (
        starts_with_mismatch bytes prefix_secp256k1 refl,
        starts_with_mismatch bytes prefix_ed25519 refl,
        starts_with_mismatch bytes prefix_sr25519 refl,
        starts_with_same prefix_multisig_threshold (0x08 ∷ k ∷ rest),
        decode_uvarint_lem k rest small,
        e,
      )

  decode_key :
      (f : ℕ) (part rest : Bytes) (p : Pubkey) (ps : Pubkeys)
      → length part ≤ 127
      → decode_pubkey b64 f part ≡ ok p
      → decode_participants b64 f rest ≡ ok ps
      → decode_participants b64 (suc f) (0x12 ∷ length part ∷ (part ++ rest)) ≡ ok (key p ps)
  unfolding decode_participants
  decode_key f part rest p ps small here later =
      let fits : ltb (length (part ++ rest)) (length part) ≡ false =
        ground (arith, length-append part rest) in
      rw (
        decode_uvarint_lem (length part) (part ++ rest) small,
        fits,
        take-append part rest,
        drop-append part rest,
        here,
        later,
      )

  -- One frame taken apart.
  frame-cons :
      (part : Bytes) (more : List Bytes) (bytes : Bytes)
      → frame (part ∷ more) ≡ ok bytes
      → (rest : Bytes) × (frame more ≡ ok rest)
        × (length part ≤ 127)
        × (bytes ≡ 0x12 ∷ length part ∷ (part ++ rest))
  unfolding frame
  frame-cons part more bytes h = elim (Result-cases (encode_uvarint (to_decimal (length part)))) [
    | inl (size, e) ↦ elim (Result-cases (frame more)) [
      | inl (rest, e') ↦
          let (same, small) = encode_uvarint_sound (length part) size e in
          (rest, e', small, ground arith)
      | inr (m, e') ↦ absurd (ground arith)
    ]
    | inr (m, e) ↦ absurd (ground arith)
  ]

  framed_lem :
      (k : ℕ) (parts : Result (List Bytes)) (bytes : Bytes)
      → framed (to_decimal k) parts ≡ ok bytes
      → (encoded : List Bytes) × (rest : Bytes) × (parts ≡ ok encoded)
        × (frame encoded ≡ ok rest)
        × (k ≤ 127)
        × (bytes ≡ prefix_multisig_threshold ++ 0x08 ∷ k ∷ rest)
  framed_lem k (throws m) bytes h = elim (Result-cases (encode_uvarint (to_decimal k))) [
    | inl (t, e) ↦ absurd (ground arith)
    | inr (m, e) ↦ absurd (ground arith)
  ]
  framed_lem k (ok encoded) bytes h = elim (Result-cases (encode_uvarint (to_decimal k))) [
    | inl (t, e) ↦ elim (Result-cases (frame encoded)) [
      | inl (rest, e') ↦
          let (same, small) = encode_uvarint_sound k t e in
          (encoded, rest, refl, e', small, ground arith)
      | inr (m, e') ↦ absurd (ground arith)
    ]
    | inr (m, e) ↦ absurd (ground arith)
  ]

  encode_all-cons :
      (p : Pubkey) (ps : Pubkeys) (parts : List Bytes)
      → encode_all b64 (key p ps) ≡ ok parts
      → (part : Bytes) × (more : List Bytes) × (encode_amino_pubkey b64 p ≡ ok part)
        × (encode_all b64 ps ≡ ok more)
        × (parts ≡ part ∷ more)
  unfolding encode_all
  encode_all-cons p ps parts h = elim (Result-cases (encode_amino_pubkey b64 p)) [
    | inl (part, e) ↦ elim (Result-cases (encode_all b64 ps)) [
      | inl (more, e') ↦ (part, more, e, e', ground arith)
      | inr (m, e') ↦ absurd (ground arith)
    ]
    | inr (m, e) ↦ absurd (ground arith)
  ]

  raw_lem : (value : Text) (size : ℕ) → (t : IsKeyText value size) → from_base64 b64 value ≡ ok t.0
  raw_lem value size (raw, same, _, bytes) = rw same (from_base64-to_base64 b64 raw bytes)

  decode_none :
      (f : ℕ) (parts : List Bytes) (bytes : Bytes)
      → encode_all b64 none_left ≡ ok parts
      → frame parts ≡ ok bytes
      → decode_participants b64 (suc f) bytes ≡ ok none_left
  unfolding encode_all frame decode_participants
  decode_none f parts bytes h e =
      let nothing : parts ≡ [] = ground arith in
      let empty : ok [] ≡ ok bytes = rw nothing at e in
      let same : bytes ≡ [] = ground arith in rw same

  mutual
    unfolding encode_amino_pubkey

    decode_encoded :
        {p : Pubkey}
        → IsCanonical p
        → (f : ℕ) (bytes : Bytes) → encode_amino_pubkey b64 p ≡ ok bytes
        → length bytes < f
        → decode_pubkey b64 f bytes ≡ ok p
    decode_encoded c zero bytes h lt = absurd (omega arith)
    decode_encoded (a_secp256k1 {value} t) (suc f) bytes h lt =
        let same : bytes ≡ prefix_secp256k1 ++ t.0 = ground (arith, raw_lem value 33 t) in
        rw (same, t.1) (decode_secp256k1 f t.0 t.2)
    decode_encoded (an_ed25519 {value} t) (suc f) bytes h lt =
        let same : bytes ≡ prefix_ed25519 ++ t.0 = ground (arith, raw_lem value 32 t) in
        rw (same, t.1) (decode_ed25519 f t.0 t.2)
    decode_encoded (a_multisig {ps} k e all_canonical) (suc f) bytes h lt =
        let (encoded, rest, parts, framed_rest, small, same) =
          framed_lem k (encode_all b64 ps) bytes (rw e at h) in
        rw (same, e)
          (decode_multisig f k rest ps small (
            decode_all all_canonical f encoded rest parts framed_rest
              (omega (arith, ap length same))))

    decode_all :
        {ps : Pubkeys}
        → AllCanonical ps
        → (f : ℕ) (parts : List Bytes) (bytes : Bytes) → encode_all b64 ps ≡ ok parts
        → frame parts ≡ ok bytes
        → length bytes < f
        → decode_participants b64 f bytes ≡ ok ps
    decode_all c zero parts bytes h e lt = absurd (omega arith)
    decode_all no_more (suc f) parts bytes h e lt = decode_none f parts bytes h e
    decode_all (and_more {p} {ps} c cs) (suc f) parts bytes h e lt =
        let (part, more, here, later, same) = encode_all-cons p ps parts h in
        let (rest, framed_rest, small, bytes_lem) = frame-cons part more bytes (rw same at e) in
        let size : length bytes ≡ suc (suc (length part + length rest)) =
          ap length bytes_lem ∙ ap (λ (n : ℕ). suc (suc n)) (length-append part rest) in
        rw bytes_lem (
          decode_key f part rest p ps small (decode_encoded c f part here (omega arith))
            (decode_all cs f more rest later framed_rest (omega arith)))

  -- What `encodeAminoPubkey` makes of a key in canonical form, single or multisig of any depth,
  -- `decodeAminoPubkey` reads back as the same key. Canonical is a base64 text of a key of the
  -- right length, and a threshold with no leading zeros.
  pub decode-encode_amino_pubkey :
      (p : Pubkey) (bytes : Bytes)
      → IsCanonical p
      → encode_amino_pubkey b64 p ≡ ok bytes
      → decode_amino_pubkey b64 bytes ≡ ok p
  unfolding decode_amino_pubkey
  decode-encode_amino_pubkey p bytes c h =
      decode_encoded c (suc (length bytes)) bytes h (omega arith)
