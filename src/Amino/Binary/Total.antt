-- ===== src/Amino/Binary/Total.antt =====
-- The number that bounds the decoder's recursion never shows in its result.
use Prim.Native.String.{String}
use text.Mathlib.Text.{◌==◌ as str_eq}
use cosmjs.Prelude.{
  ℕ, zero, suc, ◌<◌, ◌≡◌, refl, inl, inr, false, not, [], ◌∷◌, arith, ltb, ◌==◌, length, take, drop,
  length-drop, Result, ◌>>=◌, ◌>>◌, throw_if, ok, Text, Bytes, to_decimal, out_of_fuel, IsFinished,
  IsFinished-bind, IsFinished-guard, IsFinished-if, returned, failed,
}
use cosmjs.Utils.Arrays.{array_content_starts_with}
use cosmjs.Encoding.Base64.{Base64Js, to_base64}
use cosmjs.Amino.Binary.{
  Pubkey, Pubkeys, secp256k1, ed25519, sr25519, prefix_secp256k1, prefix_ed25519, prefix_sr25519,
  prefix_multisig_threshold, fixed_rest, multisig_threshold, starts_with_byte, key, decode_uvarint,
  decode_pubkey, decode_participants, decode_amino_pubkey,
}
use cosmjs.Amino.Binary.Fuel.{
  short_or_less, length-take-le, nonempty_reader, decode_amino_pubkey_fuel,
}

decode_uvarint-IsFinished : (bs : Bytes) → IsFinished (decode_uvarint bs)
unfolding decode_uvarint
decode_uvarint-IsFinished [] = failed refl
decode_uvarint-IsFinished (b ∷ bs) = IsFinished-if (ltb 127 b) _ _ (failed refl) returned

module _ (b64 : Base64Js) where
  fixed_rest-IsFinished :
      (size : ℕ) (m : String) (make : Text → Pubkey) (bytes : Bytes)
      → str_eq m out_of_fuel ≡ false
      → IsFinished (fixed_rest b64 size m make bytes)
  unfolding fixed_rest
  fixed_rest-IsFinished size m make bytes h =
      IsFinished-guard (not (length (drop 5 bytes) == size)) m
        (ok (make (to_base64 b64 (drop 5 bytes)))) h (λ _. returned)

  -- The multisig branch behind its prefix.
  abbrev threshold_then_keys : ℕ → Bytes → ℕ → Result Pubkey
  threshold_then_keys f bytes n =
      decode_participants b64 f (drop 6 bytes) >>= λ ps. ok (multisig_threshold (to_decimal n) ps)

  multisig_step :
      (f : ℕ) (bytes : Bytes)
      → ((n : ℕ)
          → decode_uvarint (drop 5 bytes) ≡ ok n
          → IsFinished (decode_participants b64 f (drop 6 bytes)))
      → IsFinished (
          throw_if
            (not (starts_with_byte 0x08 (drop 4 bytes)))
            "Invalid multisig data. Expecting 0x08 prefix before threshold."
          >> (decode_uvarint (drop 5 bytes) >>= threshold_then_keys f bytes))
  multisig_step f bytes rest =
      IsFinished-guard (not (starts_with_byte 0x08 (drop 4 bytes)))
        "Invalid multisig data. Expecting 0x08 prefix before threshold."
        (decode_uvarint (drop 5 bytes) >>= threshold_then_keys f bytes) refl
        λ _.
          IsFinished-bind (decode_uvarint (drop 5 bytes)) (threshold_then_keys f bytes)
            (decode_uvarint-IsFinished (drop 5 bytes))
            λ n read.
              IsFinished-bind (decode_participants b64 f (drop 6 bytes))
                (λ ps. ok (multisig_threshold (to_decimal n) ps)) (rest n read) (λ ps _. returned)

  pubkey_step :
      (f : ℕ) (bytes : Bytes)
      → ((n : ℕ)
          → decode_uvarint (drop 5 bytes) ≡ ok n
          → IsFinished (decode_participants b64 f (drop 6 bytes)))
      → IsFinished (decode_pubkey b64 (suc f) bytes)
  unfolding decode_pubkey
  pubkey_step f bytes rest =
      IsFinished-if (array_content_starts_with bytes prefix_secp256k1) _ _
        (fixed_rest-IsFinished 33 _ secp256k1 bytes refl)
        (IsFinished-if (array_content_starts_with bytes prefix_ed25519) _ _
          (fixed_rest-IsFinished 32 _ ed25519 bytes refl)
          (IsFinished-if (array_content_starts_with bytes prefix_sr25519) _ _
            (fixed_rest-IsFinished 32 _ sr25519 bytes refl)
            (IsFinished-if (array_content_starts_with bytes prefix_multisig_threshold) _ _
              (multisig_step f bytes rest) (failed refl))))

  -- What follows the length of a key.
  abbrev key_then_rest : ℕ → Bytes → ℕ → Result Pubkeys
  key_then_rest f reader n = do
    pubkey ← decode_pubkey b64 f (take n (drop 1 reader))
    pubkeys ← decode_participants b64 f (drop n (drop 1 reader))
    ok (key pubkey pubkeys)

  abbrev length_then_key : ℕ → Bytes → ℕ → Result Pubkeys
  length_then_key f reader n = do
    throw_if (ltb (length (drop 1 reader)) n) "Invalid multisig data length."
    key_then_rest f reader n

  participants_step :
      (f b : ℕ) (reader : Bytes)
      → ((n : ℕ)
          → decode_uvarint reader ≡ ok n
          → IsFinished (decode_pubkey b64 f (take n (drop 1 reader))))
      → ((n : ℕ)
          → decode_uvarint reader ≡ ok n
          → IsFinished (decode_participants b64 f (drop n (drop 1 reader))))
      → IsFinished (decode_participants b64 (suc f) (b ∷ reader))
  unfolding decode_participants
  participants_step f b reader here later =
      IsFinished-guard (not (b == 0x12))
        "Invalid multisig data. Expecting 0x12 prefix before participant pubkey length."
        (decode_uvarint reader >>= length_then_key f reader) refl
        λ _.
          IsFinished-bind (decode_uvarint reader) (length_then_key f reader)
            (decode_uvarint-IsFinished reader)
            λ n read.
              IsFinished-guard (ltb (length (drop 1 reader)) n) "Invalid multisig data length."
                (key_then_rest f reader n) refl
                λ _.
                  IsFinished-bind (decode_pubkey b64 f (take n (drop 1 reader)))
                    (λ p.
                      decode_participants b64 f (drop n (drop 1 reader)) >>= λ ps. ok (key p ps))
                    (here n read)
                    λ p _.
                      IsFinished-bind (decode_participants b64 f (drop n (drop 1 reader)))
                        (λ ps. ok (key p ps)) (later n read) (λ ps _. returned)

  nil_IsFinished : (f : ℕ) → IsFinished (decode_participants b64 (suc f) [])
  unfolding decode_participants
  nil_IsFinished f = returned

  nonempty_rest : (bs : Bytes) (n : ℕ) → drop 5 bs ≡ [] → decode_uvarint (drop 5 bs) ≡ ok n → ⊥
  unfolding decode_uvarint
  nonempty_rest bs n e h = cc (rw e at h)

  mutual
    decode-IsFinished :
        (f : ℕ) (bytes : Bytes) → length bytes < f → IsFinished (decode_pubkey b64 f bytes)
    decode-IsFinished zero bytes h = absurd (omega arith)
    decode-IsFinished (suc f) bytes h = pubkey_step f bytes λ n read. elim (short_or_less bytes) [
      | inl short ↦ absurd (nonempty_rest bytes n short read)
      | inr less ↦ participants-IsFinished f (drop 6 bytes) (omega arith)
    ]

    participants-IsFinished :
        (f : ℕ) (reader : Bytes) → length reader < f → IsFinished (decode_participants b64 f reader)
    participants-IsFinished zero reader h = absurd (omega arith)
    participants-IsFinished (suc f) [] h = nil_IsFinished f
    participants-IsFinished (suc f) (b ∷ reader) h =
        participants_step f b reader
          (λ n read.
            decode-IsFinished f (take n (drop 1 reader))
              (omega (arith, length-take-le n (drop 1 reader), nonempty_reader b64 reader n read)))
          (λ n read.
            participants-IsFinished f (drop n (drop 1 reader))
              (omega (arith, length-drop n (drop 1 reader), nonempty_reader b64 reader n read)))

  -- The recursion of `decodeAminoPubkey` always ends within the length of the data: its result
  -- is a key or one of the errors that the code throws, and the same under every bound above
  -- that length.
  pub decode_amino_pubkey_terminates :
      (bytes : Bytes) (fuel : ℕ)
      → length bytes < fuel
      → IsFinished (decode_amino_pubkey b64 bytes)
        × (decode_pubkey b64 fuel bytes ≡ decode_amino_pubkey b64 bytes)
  decode_amino_pubkey_terminates bytes fuel h = (
    unfold decode_amino_pubkey in decode-IsFinished (suc (length bytes)) bytes (omega arith),
    decode_amino_pubkey_fuel b64 bytes fuel h,
  )
