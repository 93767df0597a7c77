-- ===== src/Crypto/Slip10.antt =====
-- packages/crypto/src/slip10.ts: the derivation of private keys along a path. HMAC-SHA512, the
-- multiplication of the base point and bn.js are parameters.
pub mod Derivation
pub mod Keys
pub mod Attempts
pub mod Outcome
mod Tests
use Prim.Native.String.{String}
use cosmjs.Prelude.{
  ℕ, zero, suc, ◌+◌, Bool, true, false, not, ◌||◌, [], ◌∷◌, ◌++◌, ◌==◌, if◌then◌else◌, replicate,
  slice, all, Result, ◌>>=◌, ◌>>◌, ok, throws, Text, Bytes, codes, text_eq, out_of_fuel,
}
use cosmjs.Encoding.Ascii.{to_ascii}
use cosmjs.Math.BigNumber.{BigNumber}
use cosmjs.Math.Uint32.{to_bytes_big_endian}
use cosmjs.Crypto.HdPath.{Slip10RawIndex, HdPath, is_hardened}

pub record Slip10Result : Type 0 where
  pub chain_code : Bytes
  pub privkey : Bytes

pub data Slip10Curve : Type 0 where
  secp256k1 ed25519 : Slip10Curve

abbrev pub curve_string : Slip10Curve → Text
curve_string secp256k1 = codes "Bitcoin seed"
curve_string ed25519 = codes "ed25519 seed"

unfoldable pub slip10_curve_from_string : Text → Result Slip10Curve
slip10_curve_from_string s =
    if text_eq s (curve_string ed25519)
    then ok ed25519
    else if text_eq s (curve_string secp256k1)
    then ok secp256k1
    else throws "Unknown curve string"

-- The hexadecimal number of the source, as its bytes.
abbrev pub secp256k1_order : Bytes
secp256k1_order =
    replicate 15 0xff
    ++ 0xfe ∷ 0xba ∷ 0xae ∷ 0xdc ∷ 0xe6 ∷ 0xaf ∷ 0x48 ∷ 0xa0 ∷ 0x3b ∷ 0xbf ∷ 0xd2 ∷ 0x5e ∷ 0x8c
      ∷ 0xd0 ∷ 0x36 ∷ 0x41 ∷ 0x41 ∷ []

unfoldable pub is_zero_key : Bytes → Bool
is_zero_key privkey = all (λ b. b == 0) privkey

module _ (bn : BigNumber) where
  open bn use {BN, of_bytes, to_array, add, mod_of, gt}

  unfoldable pub curve_n : Slip10Curve → Result BN
  curve_n secp256k1 = ok (of_bytes secp256k1_order)
  curve_n ed25519 = throws "curve not supported"

  -- `gte` is that the order is not greater.
  unfoldable pub is_gte_n : Slip10Curve → Bytes → Result Bool
  is_gte_n curve privkey = do n ← curve_n curve; ok (not (gt n (of_bytes privkey)))

  -- `curve !== Ed25519 && (isZero(il) || isGteN(curve, il))`
  unfoldable pub is_bad_master : Slip10Curve → Bytes → Result Bool
  is_bad_master ed25519 il = ok false
  is_bad_master secp256k1 il = if is_zero_key il then ok true else is_gte_n secp256k1 il

  module _ (hmac_sha512 : Bytes → Bytes → Bytes) (compressed_point : BN → Bytes) where
    -- `master`; the number bounds the attempts.
    unfoldable pub master : ℕ → Slip10Curve → Bytes → Result Slip10Result
    master zero curve seed = throws out_of_fuel
    master (suc fuel) curve seed = do
      key ← to_ascii (curve_string curve)
      let i = hmac_sha512 key seed
      let il = slice i 0 32
      let ir = slice i 32 64
      let retried = master fuel curve i
      again ← is_bad_master curve il
      if again then retried else ok (record { chain_code = ir; privkey = il })

    unfoldable pub serialized_point : Slip10Curve → BN → Result Bytes
    serialized_point secp256k1 p = ok (compressed_point p)
    serialized_point ed25519 p = throws "curve not supported"

    -- `childImpl`; the number bounds the attempts.
    unfoldable pub child_impl :
        ℕ → Slip10Curve → Slip10Result → Slip10RawIndex → Bytes → Result Slip10Result
    child_impl fuel ed25519 parent raw_index i =
        let il = slice i 0 32 in
        let ir = slice i 32 64 in ok (record { chain_code = ir; privkey = il })
    child_impl zero secp256k1 parent raw_index i = throws out_of_fuel
    child_impl (suc fuel) secp256k1 parent raw_index i = do
      let il = slice i 0 32
      let ir = slice i 32 64
      n ← curve_n secp256k1
      let child_key = to_array (mod_of (add (of_bytes il) (of_bytes parent.privkey)) n) 32
      let new_i = hmac_sha512 parent.chain_code (1 ∷ (ir ++ to_bytes_big_endian raw_index))
      let retried = child_impl fuel secp256k1 parent raw_index new_i
      high ← is_gte_n secp256k1 il
      if high || is_zero_key child_key
          then retried
          else ok (record { chain_code = ir; privkey = child_key })

    -- What the `if` of `child` computes.
    unfoldable pub child_digest : Slip10Curve → Slip10Result → Slip10RawIndex → Result Bytes
    child_digest curve parent raw_index =
        if is_hardened raw_index
        then ok
            (hmac_sha512 parent.chain_code (0 ∷ (parent.privkey ++ to_bytes_big_endian raw_index)))
        else normal_digest curve parent raw_index
      where
        normal_digest : Slip10Curve → Slip10Result → Slip10RawIndex → Result Bytes
        normal_digest ed25519 p index = throws "Normal keys are not allowed with ed25519"
        normal_digest secp256k1 p index = do
          point ← serialized_point secp256k1 (of_bytes p.privkey)
          ok (hmac_sha512 p.chain_code (point ++ to_bytes_big_endian index))

    unfoldable pub child : ℕ → Slip10Curve → Slip10Result → Slip10RawIndex → Result Slip10Result
    child fuel curve parent raw_index = do
      i ← child_digest curve parent raw_index
      child_impl fuel curve parent raw_index i

    -- The loop of `derivePath`.
    unfoldable pub derive_from : ℕ → Slip10Curve → Slip10Result → HdPath → Result Slip10Result
    derive_from fuel curve result [] = ok result
    derive_from fuel curve result (raw_index ∷ path) = do
      next ← child fuel curve result raw_index
      derive_from fuel curve next path

    unfoldable pub derive_path : ℕ → Slip10Curve → Bytes → HdPath → Result Slip10Result
    derive_path fuel curve seed path = do
      result ← master fuel curve seed
      derive_from fuel curve result path
