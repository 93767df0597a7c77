-- ===== src/Crypto/Slip10/Derivation.antt =====
-- SLIP-0010 as relations, from its text: which private key and chain code belong to a seed and a
-- path. Private keys and halves of digests are taken as numbers here; HMAC-SHA512 and the
-- compressed point of a private key are parameters.
use cosmjs.Prelude.{
  ℕ, suc, ◌+◌, ◌%◌, ◌^◌, ◌≤◌, ◌<◌, ◌≡◌, ◌⊎◌, [], ◌∷◌, ◌++◌, length, Result, ok, throws, Bytes,
  codes, out_of_fuel,
}
use cosmjs.Math.BigNumber.{BigNumber, bytes_value, bytes_from}
use cosmjs.Crypto.HdPath.{Slip10RawIndex, HdPath}
use cosmjs.Crypto.Slip10.{Slip10Result, Slip10Curve, secp256k1, ed25519}

-- "parse256": the number of a big-endian sequence.
abbrev pub number : Bytes → ℕ
number bs = bytes_value 0 bs

-- "ser32": a number as four bytes, the most significant first.
abbrev pub ser32 : ℕ → Bytes
ser32 n = bytes_from 4 n []

-- The order n of the curve secp256k1, in the decimal system.
abbrev pub order : ℕ
order = 115792089237316195423570985008687907852837564279074904382605163141518161494337

module _ (hmac_sha512 : Bytes → Bytes → Bytes) where
  -- Master key generation: the digest I of the seed is split in two sequences of 32 bytes, the key
  -- and the chain code. On secp256k1 a key that is 0 or not below n is invalid; then I is the seed.
  pub data IsMaster : Slip10Curve → Bytes → Slip10Result → Type 0 where
    master_ed25519 :
        {seed : Bytes} (il ir : Bytes)
        → length il ≡ 32
        → hmac_sha512 (codes "ed25519 seed") seed ≡ il ++ ir
        → IsMaster ed25519 seed (record { chain_code = ir; privkey = il })
    master_secp256k1 :
        {seed : Bytes} (il ir : Bytes)
        → length il ≡ 32
        → hmac_sha512 (codes "Bitcoin seed") seed ≡ il ++ ir
        → 0 < number il
        → number il < order
        → IsMaster secp256k1 seed (record { chain_code = ir; privkey = il })
    master_again :
        {seed : Bytes} (il ir : Bytes) {r : Slip10Result}
        → length il ≡ 32
        → hmac_sha512 (codes "Bitcoin seed") seed ≡ il ++ ir
        → (number il ≡ 0) ⊎ (order ≤ number il)
        → IsMaster secp256k1 (hmac_sha512 (codes "Bitcoin seed") seed) r
        → IsMaster secp256k1 seed r

  -- A seed whose first digests, as many as the number says, are all invalid on secp256k1.
  pub data MasterRetries : ℕ → Bytes → Type 0 where
    no_master_yet : {seed : Bytes} → MasterRetries 0 seed
    bad_master :
        {n : ℕ} {seed : Bytes} (il ir : Bytes)
        → length il ≡ 32
        → hmac_sha512 (codes "Bitcoin seed") seed ≡ il ++ ir
        → (number il ≡ 0) ⊎ (order ≤ number il)
        → MasterRetries n (hmac_sha512 (codes "Bitcoin seed") seed)
        → MasterRetries (suc n) seed

  -- The child of a parent at an index, from a digest I: its left half on Ed25519; on secp256k1 the
  -- sum with the key of the parent modulo n, which a left half from n on and the sum 0 make invalid.
  pub data IsKey (parent : Slip10Result) (index : Slip10RawIndex)
      : Slip10Curve → Bytes → Slip10Result → Type 0 where
    key_ed25519 :
        {digest : Bytes} (il ir : Bytes)
        → length il ≡ 32
        → digest ≡ il ++ ir
        → IsKey parent index ed25519 digest (record { chain_code = ir; privkey = il })
    key_secp256k1 :
        {digest : Bytes} (il ir child_key : Bytes)
        → length il ≡ 32
        → digest ≡ il ++ ir
        → number il < order
        → length child_key ≡ 32
        → number child_key ≡ (number il + number parent.privkey) % order
        → 0 < number child_key
        → IsKey parent index secp256k1 digest (record { chain_code = ir; privkey = child_key })
    key_again :
        {digest : Bytes} (il ir : Bytes) {r : Slip10Result}
        → length il ≡ 32
        → digest ≡ il ++ ir
        → (order ≤ number il) ⊎ ((number il + number parent.privkey) % order ≡ 0)
        → IsKey parent index secp256k1
            (hmac_sha512 parent.chain_code (1 ∷ (ir ++ ser32 index.value)))
            r
        → IsKey parent index secp256k1 digest r

  -- A digest from which as many attempts as the number says are all invalid on secp256k1.
  pub data KeyRetries (parent : Slip10Result) (index : Slip10RawIndex) : ℕ → Bytes → Type 0 where
    no_key_yet : {digest : Bytes} → KeyRetries parent index 0 digest
    bad_key :
        {n : ℕ} {digest : Bytes} (il ir : Bytes)
        → length il ≡ 32
        → digest ≡ il ++ ir
        → (order ≤ number il) ⊎ ((number il + number parent.privkey) % order ≡ 0)
        → KeyRetries parent index n (hmac_sha512 parent.chain_code (1 ∷ (ir ++ ser32 index.value)))
        → KeyRetries parent index (suc n) digest

  module _ (bn : BigNumber) (compressed_point : bn.BN → Bytes) where
    -- The digest of a child: from 2^31 on an index is hardened; others are for secp256k1 only.
    pub data IsDigest (parent : Slip10Result) (index : Slip10RawIndex)
        : Slip10Curve → Bytes → Type 0 where
      hardened :
          {curve : Slip10Curve}
          → 2 ^ 31 ≤ index.value
          → IsDigest parent index curve
              (hmac_sha512 parent.chain_code (0 ∷ (parent.privkey ++ ser32 index.value)))
      normal :
          index.value < 2 ^ 31
          → IsDigest parent index secp256k1 (
              hmac_sha512 parent.chain_code
                (compressed_point (bn.of_bytes parent.privkey) ++ ser32 index.value))

    -- The children along a path, with the two ways in which they can fail to be there: Ed25519 has
    -- no children that are not hardened; and `fuel` attempts in a row can be invalid on secp256k1.
    pub data IsPathOutcome (fuel : ℕ)
        : Slip10Curve → Slip10Result → HdPath → Result Slip10Result → Type 0 where
      arrived : {curve : Slip10Curve} {r : Slip10Result} → IsPathOutcome fuel curve r [] (ok r)
      child_step :
          {curve : Slip10Curve} {r next : Slip10Result} {index : Slip10RawIndex} {path : HdPath}
          {digest : Bytes} {result : Result Slip10Result}
          → IsDigest r index curve digest
          → IsKey r index curve digest next
          → IsPathOutcome fuel curve next path result
          → IsPathOutcome fuel curve r (index ∷ path) result
      refused :
          {r : Slip10Result} {index : Slip10RawIndex} {path : HdPath}
          → index.value < 2 ^ 31
          → IsPathOutcome fuel ed25519 r
              (index ∷ path)
              (throws "Normal keys are not allowed with ed25519")
      exhausted :
          {r : Slip10Result} {index : Slip10RawIndex} {path : HdPath} {digest : Bytes}
          → IsDigest r index secp256k1 digest
          → KeyRetries r index fuel digest
          → IsPathOutcome fuel secp256k1 r (index ∷ path) (throws out_of_fuel)

    -- The same from a seed on.
    pub data IsOutcome (fuel : ℕ) (seed : Bytes) (path : HdPath)
        : Slip10Curve → Result Slip10Result → Type 0 where
      from_master :
          {curve : Slip10Curve} {first : Slip10Result} {result : Result Slip10Result}
          → IsMaster curve seed first
          → IsPathOutcome fuel curve first path result
          → IsOutcome fuel seed path curve result
      no_master : MasterRetries fuel seed → IsOutcome fuel seed path secp256k1 (throws out_of_fuel)
