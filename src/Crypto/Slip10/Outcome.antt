-- ===== src/Crypto/Slip10/Outcome.antt =====
-- Slip10.derivePath of packages/crypto/src/slip10.ts, against the relations of SLIP-0010.
use cosmjs.Prelude.{
  ℕ, suc, ◌^◌, ◌<◌, ◌≡◌, refl, inl, inr, true, false, [], ◌∷◌, ◌++◌, arith, Bool-cases, length,
  Result, ok, throws, Bytes,
}
use cosmjs.Math.BigNumber.{BigNumber}
use cosmjs.Crypto.HdPath.{Slip10RawIndex, HdPath, is_hardened}
use cosmjs.Crypto.Slip10.{
  Slip10Result, Slip10Curve, secp256k1, ed25519, serialized_point, child_digest, child, derive_from,
  derive_path, child_impl,
}
use cosmjs.Crypto.Slip10.Derivation.{
  ser32, IsDigest, hardened, normal, IsPathOutcome, arrived, child_step, refused, exhausted,
  IsOutcome, from_master, no_master,
}
use cosmjs.Crypto.Slip10.Keys.{ser32_lem}
use cosmjs.Crypto.Slip10.Attempts.{
  master_secp256k1_lem, master_ed25519_lem, child_impl_secp256k1, child_impl_ed25519,
}

module _ (bn : BigNumber) (hmac_sha512 : Bytes → Bytes → Bytes) (compressed_point : bn.BN → Bytes)
    (size : (k message : Bytes) → length (hmac_sha512 k message) ≡ 64) where
  abbrev digest_of : Slip10Curve → Slip10Result → Slip10RawIndex → Result Bytes
  digest_of = child_digest bn hmac_sha512 compressed_point

  abbrev IsFound : Slip10Curve → Slip10Result → Slip10RawIndex → Type 0
  IsFound curve r index =
      (i : Bytes) × (digest_of curve r index ≡ ok i)
      × (length i ≡ 64)
      × IsDigest hmac_sha512 bn compressed_point r index curve i

  -- A digest for a child, or the refusal of Ed25519.
  hardened_digest :
      (curve : Slip10Curve) (r : Slip10Result) (index : Slip10RawIndex)
      → is_hardened index ≡ true
      → IsFound curve r index
  unfolding child_digest is_hardened
  hardened_digest curve r index e = (
    hmac_sha512 r.chain_code (0 ∷ (r.privkey ++ ser32 index.value)),
    rw (e, ser32_lem index) refl,
    size r.chain_code _,
    hardened (ground arith),
  )

  normal_digest_secp256k1 :
      (r : Slip10Result) (index : Slip10RawIndex)
      → is_hardened index ≡ false
      → IsFound secp256k1 r index
  unfolding child_digest serialized_point is_hardened
  normal_digest_secp256k1 r index e = (
    hmac_sha512 r.chain_code (compressed_point (bn.of_bytes r.privkey) ++ ser32 index.value),
    rw (e, ser32_lem index) refl,
    size r.chain_code _,
    normal (ground arith),
  )

  normal_digest_ed25519 :
      (r : Slip10Result) (index : Slip10RawIndex)
      → is_hardened index ≡ false
      → digest_of ed25519 r index ≡ throws "Normal keys are not allowed with ed25519"
  unfolding child_digest
  normal_digest_ed25519 r index e = rw e refl

  normal_index : (index : Slip10RawIndex) → is_hardened index ≡ false → index.value < 2 ^ 31
  unfolding is_hardened
  normal_index index e = ground arith

  digest_secp256k1 : (r : Slip10Result) (index : Slip10RawIndex) → IsFound secp256k1 r index
  digest_secp256k1 r index = elim (Bool-cases (is_hardened index)) [
    | inl e ↦ hardened_digest secp256k1 r index e
    | inr e ↦ normal_digest_secp256k1 r index e
  ]

  abbrev IsDerivedFrom : ℕ → Slip10Curve → Slip10Result → HdPath → Type 0
  IsDerivedFrom fuel curve r path =
      IsPathOutcome hmac_sha512 bn compressed_point fuel curve r path
        (derive_from bn hmac_sha512 compressed_point fuel curve r path)

  child_lem :
      (fuel : ℕ) (curve : Slip10Curve) (r : Slip10Result) (index : Slip10RawIndex) (i : Bytes)
      → digest_of curve r index ≡ ok i
      → child bn hmac_sha512 compressed_point fuel curve r index
        ≡ child_impl bn hmac_sha512 compressed_point fuel curve r index i
  unfolding child
  child_lem fuel curve r index i e = rw e refl

  derive_from_lem :
      (fuel : ℕ) (curve : Slip10Curve) (r : Slip10Result) (path : HdPath)
      → IsDerivedFrom fuel curve r path
  unfolding derive_from
  derive_from_lem fuel curve r [] = arrived
  derive_from_lem fuel secp256k1 r (index ∷ path) =
      let (i, found, whole, is_digest) = digest_secp256k1 r index in
      elim (child_impl_secp256k1 bn hmac_sha512 compressed_point size r index fuel i whole) [
        | inl (next, made, is_key) ↦
            rw (child_lem fuel secp256k1 r index i found, made)
              (child_step is_digest is_key (derive_from_lem fuel secp256k1 next path))
        | inr (out, retries) ↦
            rw (child_lem fuel secp256k1 r index i found, out) (exhausted is_digest retries)
      ]
  derive_from_lem fuel ed25519 r (index ∷ path) = elim (Bool-cases (is_hardened index)) [
    | inl e ↦
        let (i, found, whole, is_digest) = hardened_digest ed25519 r index e in
        let (next, made, is_key) =
          child_impl_ed25519 bn hmac_sha512 compressed_point size r index fuel i whole in
        rw (child_lem fuel ed25519 r index i found, made)
          (child_step is_digest is_key (derive_from_lem fuel ed25519 next path))
    | inr e ↦ unfold child in rw (normal_digest_ed25519 r index e) (refused (normal_index index e))
  ]

  -- Whatever the curve, the seed and the path are: `derivePath` returns the private key and the
  -- chain code that SLIP-0010 gives for them, or Ed25519 comes to an index below 2^31 and refuses
  -- it. Only on secp256k1 can the bound on the attempts be met, and then as many digests in a row
  -- were invalid. HMAC-SHA512 gives 64 bytes.
  pub derive_path-IsOutcome :
      (fuel : ℕ) (curve : Slip10Curve) (seed : Bytes) (path : HdPath)
      → IsOutcome hmac_sha512 bn compressed_point
          (suc fuel)
          seed
          path
          curve
          (derive_path bn hmac_sha512 compressed_point (suc fuel) curve seed path)
  unfolding derive_path
  derive_path-IsOutcome fuel ed25519 seed path =
      let (first, made, is_master) =
        master_ed25519_lem bn hmac_sha512 compressed_point size fuel seed in
      rw made (from_master is_master (derive_from_lem (suc fuel) ed25519 first path))
  derive_path-IsOutcome fuel secp256k1 seed path =
      elim (master_secp256k1_lem bn hmac_sha512 compressed_point size (suc fuel) seed) [
        | inl (first, made, is_master) ↦
            rw made (from_master is_master (derive_from_lem (suc fuel) secp256k1 first path))
        | inr (out, retries) ↦ rw out (no_master retries)
      ]
