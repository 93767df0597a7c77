-- ===== src/Crypto/Signature/Fixed.antt =====
-- The encoding of fixed length.
use cosmjs.Prelude.{
  ℕ, ◌-◌, ◌≤◌, ◌≡◌, inl, inr, [], ◌∷◌, ◌++◌, arith, ◌==◌, Bytes, length, length-append,
  length-replicate, length-take, length-drop, take, slice, take-append-drop, take_exact, drop_exact,
  take_all, replicate, ok, Bool-cases,
}
use cosmjs.Crypto.Signature.{
  trim_leading_null_bytes, Secp256k1Signature, is_bad_integer, new_signature, from_fixed_length,
  r_padded, s_padded, to_fixed_length,
}
use cosmjs.Crypto.Signature.Numbers.{
  IsUnpadded, is_bad_integer_lem, IsUnpadded-of_test, trim_lem, trim-zeros, pad-trim,
}

-- What the constructor accepts.
abbrev pub IsValid : Secp256k1Signature → Type 0
IsValid sig = IsUnpadded sig.r × IsUnpadded sig.s

pub length_of_IsUnpadded : (x : Bytes) → IsUnpadded x → (length x ≤ 32) × (1 ≤ length x)
length_of_IsUnpadded [] h = absurd h
length_of_IsUnpadded (b ∷ bs) h = omega arith

pub new_signature_lem :
    (r s : Bytes) → IsUnpadded r → IsUnpadded s → new_signature r s ≡ ok (record { r = r; s = s })
unfolding new_signature
new_signature_lem r s hr hs = rw (is_bad_integer_lem r hr, is_bad_integer_lem s hs)

-- The constructor succeeds only on two unpadded integers of at most 32 bytes, which it stores.
pub new_signature_sound :
    (r s : Bytes) (sig : Secp256k1Signature)
    → new_signature r s ≡ ok sig
    → IsUnpadded r × IsUnpadded s × (sig ≡ record { r = r; s = s })
unfolding new_signature
new_signature_sound r s sig h = elim (Bool-cases (is_bad_integer r)) [
  | inl bad ↦ absurd (ground arith)
  | inr good ↦ elim (Bool-cases (is_bad_integer s)) [
    | inl bad ↦ absurd (ground arith)
    | inr fine ↦ (IsUnpadded-of_test r good, IsUnpadded-of_test s fine, ground arith)
  ]
]

abbrev pad : Bytes → Bytes
pad x = replicate (32 - length x) 0 ++ x

length-pad : (x : Bytes) → length x ≤ 32 → length (pad x) ≡ 32
length-pad x h = omega (
  arith,
  length-append (replicate (32 - length x) 0) x,
  length-replicate {A = ℕ} (32 - length x) 0,
)

pub to_fixed_length_lem :
    (sig : Secp256k1Signature) → IsValid sig → to_fixed_length sig ≡ ok (pad sig.r ++ pad sig.s)
unfolding to_fixed_length r_padded s_padded
to_fixed_length_lem sig (hr, hs) =
    ground (arith, length_of_IsUnpadded sig.r hr, length_of_IsUnpadded sig.s hs)

halves :
    (x y : Bytes)
    → length x ≡ 32
    → length y ≡ 32
    → (length (x ++ y) ≡ 64) × (slice (x ++ y) 0 32 ≡ x) × (slice (x ++ y) 32 64 ≡ y)
halves x y hx hy =
    let total : length (x ++ y) ≡ 64 = omega (arith, length-append x y) in
    (total, take_exact 32 x y hx, rw (take_all 64 (x ++ y) (omega arith)) (drop_exact 32 x y hx))

-- A valid signature, that is an unpadded r and s of 1 to 32 bytes, is encoded in 64 bytes, and
-- decoding them gives the signature back.
pub from_fixed_length-to_fixed_length :
    (sig : Secp256k1Signature)
    → IsValid sig
    → (bytes : Bytes) × (to_fixed_length sig ≡ ok bytes)
      × (length bytes ≡ 64)
      × (from_fixed_length bytes ≡ ok sig)
unfolding from_fixed_length
from_fixed_length-to_fixed_length sig (hr, hs) =
    let lr = length-pad sig.r (length_of_IsUnpadded sig.r hr).0 in
    let ls = length-pad sig.s (length_of_IsUnpadded sig.s hs).0 in
    let (total, low, high) = halves (pad sig.r) (pad sig.s) lr ls in
    (
      pad sig.r ++ pad sig.s,
      to_fixed_length_lem sig (hr, hs),
      total,
      rw
          (
            total,
            low,
            high,
            trim-zeros (32 - length sig.r) sig.r,
            trim-zeros (32 - length sig.s) sig.s,
            trim_lem sig.r hr,
            trim_lem sig.s hs,
          )
          (new_signature_lem sig.r sig.s hr hs),
    )

pad_of_trim :
    (n : ℕ) (x : Bytes)
    → length x ≡ n
    → replicate (n - length (trim_leading_null_bytes x)) 0 ++ trim_leading_null_bytes x ≡ x
pad_of_trim n x e = rw (← e) (pad-trim x)

-- What `fromFixedLength` accepts, `toFixedLength` writes again byte for byte.
pub to_fixed_length-from_fixed_length :
    (bytes : Bytes) (sig : Secp256k1Signature)
    → from_fixed_length bytes ≡ ok sig
    → to_fixed_length sig ≡ ok bytes
unfolding from_fixed_length
to_fixed_length-from_fixed_length bytes sig h = elim (Bool-cases (length bytes == 64)) [
  | inl fits ↦
      let size : length bytes ≡ 64 = ground arith in
      let r = slice bytes 0 32 in
      let s = slice bytes 32 64 in
      let (hr, hs, same) =
        new_signature_sound (trim_leading_null_bytes r) (trim_leading_null_bytes s) sig
          (rw fits at h) in
      let lr : length r ≡ 32 = omega (arith, length-take 32 bytes) in
      let ls : length s ≡ 32 =
        omega (arith, length-drop 32 (take 64 bytes), length-take 64 bytes) in
      let whole : r ++ s ≡ bytes =
        rw (take_all 64 bytes (omega arith)) (take-append-drop 32 bytes) in
      rw (
        same,
        to_fixed_length_lem
            (record { r = trim_leading_null_bytes r; s = trim_leading_null_bytes s }) (hr, hs),
        pad_of_trim 32 r lr,
        pad_of_trim 32 s ls,
        whole,
      )
  | inr other ↦ absurd (ground arith)
]
