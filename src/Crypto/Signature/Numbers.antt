-- ===== src/Crypto/Signature/Numbers.antt =====
-- Unsigned integers as big-endian bytes: what trimming and padding do to them.
use cosmjs.Prelude.{
  ℕ, zero, suc, ◌-◌, ◌≤◌, ◌≡◌, ◌≢◌, refl, inl, inr, false, [], ◌∷◌, ◌++◌, arith, ◌==◌, Bytes,
  length, replicate, Bool-cases,
}
use cosmjs.Crypto.Signature.{trim_leading_null_bytes, is_bad_integer}

-- An unpadded integer of at most 32 bytes: what the constructor asks for.
abbrev pub IsUnpadded : Bytes → Type 0
IsUnpadded [] = ⊥
IsUnpadded (b ∷ bs) = (b ≢ 0) × (length bs ≤ 31)

pub is_bad_integer_lem : (x : Bytes) → IsUnpadded x → is_bad_integer x ≡ false
unfolding is_bad_integer
is_bad_integer_lem [] h = absurd h
is_bad_integer_lem (b ∷ bs) h = ground arith

pub IsUnpadded-of_test : (x : Bytes) → is_bad_integer x ≡ false → IsUnpadded x
unfolding is_bad_integer
IsUnpadded-of_test [] h = cc
IsUnpadded-of_test (b ∷ bs) h = ground arith

pub trim_lem : (x : Bytes) → IsUnpadded x → trim_leading_null_bytes x ≡ x
unfolding trim_leading_null_bytes
trim_lem [] h = refl
trim_lem (b ∷ bs) h = ground arith

pub trim-zeros :
    (n : ℕ) (x : Bytes) → trim_leading_null_bytes (replicate n 0 ++ x) ≡ trim_leading_null_bytes x
unfolding trim_leading_null_bytes
trim-zeros zero x = refl
trim-zeros (suc n) x = trim-zeros n x

pub length-trim : (x : Bytes) → length (trim_leading_null_bytes x) ≤ length x
unfolding trim_leading_null_bytes
length-trim [] = omega arith
length-trim (b ∷ bs) = ground (arith, length-trim bs)

-- Padding the trimmed bytes back to the old length gives the bytes.
pub pad-trim :
    (x : Bytes)
    → replicate (length x - length (trim_leading_null_bytes x)) 0 ++ trim_leading_null_bytes x ≡ x
unfolding trim_leading_null_bytes
pad-trim [] = refl
pad-trim (b ∷ bs) = elim (Bool-cases (b == 0)) [
  | inl z ↦
      let gap : suc (length bs) - length (trim_leading_null_bytes bs)
          ≡ suc (length bs - length (trim_leading_null_bytes bs)) =
        omega (arith, length-trim bs) in
      let zero_b : b ≡ 0 = ground arith in rw (z, gap, pad-trim bs, zero_b)
  | inr nz ↦ let gap : suc (length bs) - suc (length bs) ≡ 0 = omega arith in rw (nz, gap)
]
