-- ===== src/Crypto/Slip10/Tests.antt =====
-- Derivation at concrete paths; the stand-in for HMAC-SHA512 gives 64 bytes of its input.
use cosmjs.Prelude.{
  ◌^◌, ◌≡◌, refl, [], ◌∷◌, ◌++◌, arith, length, length-append, take, replicate, length-take, ok,
  throws, Bytes, codes,
}
use cosmjs.Prelude.Int.{ℤ}
use cosmjs.Encoding.Ascii.{to_ascii}
use cosmjs.Math.BigNumber.{native, bytes_from, magnitude}
use cosmjs.Math.Uint32.{to_bytes_big_endian}
use cosmjs.Crypto.HdPath.{Slip10RawIndex, is_hardened}
use cosmjs.Crypto.Slip10.{
  secp256k1, ed25519, is_bad_master, master, child_digest, child_impl, child, derive_from,
  derive_path,
}
use cosmjs.Crypto.Slip10.Derivation.{IsOutcome}
use cosmjs.Crypto.Slip10.Outcome.{derive_path-IsOutcome}

abbrev mix : Bytes → Bytes → Bytes
mix k message = take 64 (k ++ message ++ replicate 64 7)

length-take_padded :
    (k message tail : Bytes) → length tail ≡ 64 → length (take 64 (k ++ message ++ tail)) ≡ 64
length-take_padded k message tail h =
    let joined = length-append (k ++ message) tail in
    let behind = length-append k message in
    omega (arith, joined, behind, length-take 64 (k ++ message ++ tail))

length-mix : (k message : Bytes) → length (mix k message) ≡ 64
length-mix k message = length-take_padded k message (replicate 64 7) refl

abbrev point : ℤ → Bytes
point p = 2 ∷ bytes_from 32 (magnitude p) []

abbrev hardened_zero : Slip10RawIndex
hardened_zero = record { value = 2 ^ 31 }

abbrev normal_five : Slip10RawIndex
normal_five = record { value = 5 }

derive_path-IsOutcome_example :
    IsOutcome mix native point 1
      (1 ∷ 2 ∷ [])
      (hardened_zero ∷ normal_five ∷ [])
      secp256k1
      (derive_path native mix point 1 secp256k1 (1 ∷ 2 ∷ []) (hardened_zero ∷ normal_five ∷ []))
derive_path-IsOutcome_example =
    derive_path-IsOutcome native mix point length-mix 0 secp256k1 (1 ∷ 2 ∷ [])
      (hardened_zero ∷ normal_five ∷ [])

-- On Ed25519 the key is the left half of the digest of the master key, which `mix` starts with.
hardened_run :
    derive_path native mix point 1 ed25519 (1 ∷ 2 ∷ []) (hardened_zero ∷ [])
    ≡ ok (record {
      chain_code = 0 ∷ (codes "ed25519 seed" ++ 1 ∷ 2 ∷ replicate 17 7);
      privkey = replicate 32 7;
    })
unfolding derive_path derive_from master child child_digest child_impl is_bad_master is_hardened
    to_ascii to_bytes_big_endian
hardened_run = refl

-- The index 5 is refused there.
normal_run :
    derive_path native mix point 1 ed25519 (1 ∷ 2 ∷ []) (hardened_zero ∷ normal_five ∷ [])
    ≡ throws "Normal keys are not allowed with ed25519"
unfolding derive_path derive_from master child child_digest child_impl is_bad_master is_hardened
    to_ascii to_bytes_big_endian
normal_run = refl
