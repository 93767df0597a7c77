-- ===== src/Math/Uint64/ByteOrder.antt =====
-- Uint64 to bytes and back, in both orders.
use mathlib.Core.List.{reverse, reverse-reverse}
use native.Mathlib.Nat.{pow-suc, pow-zero}
use mathlib.Core.Path.{subst}
use cosmjs.Prelude.{
  ℕ, zero, suc, ◌+◌, ◌-◌, ◌*◌, ◌/◌, ◌%◌, ◌^◌, ◌≤◌, ◌<◌, ◌≡◌, refl, ap, ◌∙◌, true, false, [], ◌∷◌,
  ◌++◌, append-nil, arith, ltb, ◌==◌, length, length-map, All, length-reverse, All-reverse, ok,
  throws, Bytes, codes, IsByte, value_from,
}
use cosmjs.Prelude.Int.{pos}
use cosmjs.Math.Number.{Number}
use cosmjs.Math.BigNumber.{BigNumber, bytes_value, bytes_from}
use cosmjs.Math.Uint32.{Endianess, be, le}
use cosmjs.Math.Uint32.ByteOrder.{numbers, check_bytes_lem}
use cosmjs.Math.Uint64.{
  Uint64, uint64_max_value, new_uint64, from_bytes, to_bytes_big_endian, to_bytes_little_endian,
}

pub bytes_value-bytes_from :
    (k n : ℕ) (out : Bytes) → n < 256 ^ k → bytes_value 0 (bytes_from k n out) ≡ bytes_value n out
unfolding bytes_value bytes_from
bytes_value-bytes_from zero n out h = let e : n ≡ 0 = omega (arith, pow-zero 256) in rw e
bytes_value-bytes_from (suc k) n out h =
    let e : n / 256 * 256 + n % 256 ≡ n = omega arith in
    bytes_value-bytes_from k (n / 256) ((n % 256) ∷ out) (omega (arith, pow-suc 256 k))
    ∙ ap (λ (t : ℕ). bytes_value t out) e

pub bytes_from-IsByte : (k n : ℕ) (out : Bytes) → All IsByte out → All IsByte (bytes_from k n out)
unfolding bytes_from
bytes_from-IsByte zero n out h = h
bytes_from-IsByte (suc k) n out h = bytes_from-IsByte k (n / 256) ((n % 256) ∷ out) (omega arith, h)

pub length-bytes_from : (k n : ℕ) (out : Bytes) → length (bytes_from k n out) ≡ k + length out
unfolding bytes_from
length-bytes_from zero n out = omega arith
length-bytes_from (suc k) n out = omega (arith, length-bytes_from k (n / 256) ((n % 256) ∷ out))

-- The bytes of the value of bytes behind `acc` are these bytes behind those of `acc`.
bytes_from-bytes_value :
    (bs : Bytes) (k j acc : ℕ) (out : Bytes)
    → j ≡ k + length bs
    → All IsByte bs
    → bytes_from j (bytes_value acc bs) out ≡ bytes_from k acc (bs ++ out)
unfolding bytes_value
bytes_from-bytes_value [] k j acc out e h = let same : j ≡ k = omega arith in rw same
bytes_from-bytes_value (b ∷ bs) k j acc out e (hb, h) =
    let high : (acc * 256 + b) / 256 ≡ acc = omega arith in
    let low : (acc * 256 + b) % 256 ≡ b = omega arith in
    bytes_from-bytes_value bs (suc k) j (acc * 256 + b) out (omega arith) h
    ∙ unfold bytes_from in rw (high, low)

bytes_value-lt :
    (bs : Bytes) (acc : ℕ) → All IsByte bs → bytes_value acc bs < (acc + 1) * 256 ^ length bs
unfolding bytes_value
bytes_value-lt [] acc h = omega (arith, pow-zero 256)
bytes_value-lt (b ∷ bs) acc (hb, h) =
    let p = 256 ^ length bs in
    let step : (acc * 256 + b + 1) * p ≤ (acc + 1) * 256 * p = grind arith in
    let e : 256 ^ suc (length bs) ≡ p * 256 = pow-suc 256 (length bs) in
    rw e (omega (arith, bytes_value-lt bs (acc * 256 + b) h))

module _ (bn : BigNumber) where
  open bn use {BN, value, of_bytes}

  -- The number is in the range of the class.
  abbrev pub IsUint64 : BN → ℕ → Type 0
  IsUint64 x n = (value x ≡ pos n) × (n < 2 ^ 64)

  max_lem : value (uint64_max_value bn) ≡ pos (2 ^ 64 - 1)
  max_lem = bn.value-of_digits (codes "18446744073709551615") refl ∙ ap pos max_value
    where
      max_value : value_from 0 (codes "18446744073709551615") ≡ 2 ^ 64 - 1
      max_value = unfold value_from in refl

  -- The constructor accepts what is in range.
  pub new_uint64_lem :
      (x : BN) (n : ℕ) → IsUint64 x n → new_uint64 bn x ≡ ok (record { number = x })
  unfolding new_uint64
  new_uint64_lem x n (e, h) =
      let fits : ltb (2 ^ 64 - 1) n ≡ false = ground arith in
      rw (bn.is_neg_lem x, e, bn.gt_lem x (uint64_max_value bn) n (2 ^ 64 - 1) e max_lem, fits)

  pub new_uint64_above :
      (x : BN) (n : ℕ)
      → value x ≡ pos n
      → 2 ^ 64 ≤ n
      → new_uint64 bn x ≡ throws "Input exceeds uint64 range"
  unfolding new_uint64
  new_uint64_above x n e h =
      let above : ltb (2 ^ 64 - 1) n ≡ true = ground arith in
      rw (bn.is_neg_lem x, e, bn.gt_lem x (uint64_max_value bn) n (2 ^ 64 - 1) e max_lem, above)

  abbrev pub to_bytes : Endianess → Uint64 BN → Bytes
  to_bytes be u = to_bytes_big_endian bn u
  to_bytes le u = to_bytes_little_endian bn u

  -- A Uint64 is read back from its eight bytes, in either byte order, as the same number.
  pub uint64_from_bytes-to_bytes :
      (endianess : Endianess) (u : Uint64 BN) (n : ℕ)
      → IsUint64 u.number n
      → (v : Uint64 BN) × (from_bytes bn (numbers (to_bytes endianess u)) endianess ≡ ok v)
        × (value v.number ≡ pos n)
  unfolding from_bytes to_bytes_big_endian to_bytes_little_endian
  uint64_from_bytes-to_bytes be u n (e, h) =
      let bytes = bytes_from 8 n [] in
      let back : value (of_bytes bytes) ≡ pos n =
        bn.value-of_bytes bytes
        ∙ ap pos (bytes_value-bytes_from 8 n [] h ∙ unfold bytes_value in refl) in
      let size : (length (numbers bytes) == 8) ≡ true =
        ground (arith, length-map bytes (λ b. Number.int (pos b)), length-bytes_from 8 n []) in
      (
        record { number = of_bytes bytes },
        rw
            (
              bn.to_array_lem u.number n 8 e h,
              size,
              check_bytes_lem bytes (bytes_from-IsByte 8 n [] tt),
            )
            (new_uint64_lem (of_bytes bytes) n (back, h)),
        back,
      )
  uint64_from_bytes-to_bytes le u n (e, h) =
      let bytes = bytes_from 8 n [] in
      let back : value (of_bytes bytes) ≡ pos n =
        bn.value-of_bytes bytes
        ∙ ap pos (bytes_value-bytes_from 8 n [] h ∙ unfold bytes_value in refl) in
      let size : (length (numbers (reverse bytes)) == 8) ≡ true = ground (
        arith,
        length-map (reverse bytes) (λ b. Number.int (pos b)),
        length-reverse bytes,
        length-bytes_from 8 n [],
      ) in
      (
        record { number = of_bytes bytes },
        rw
            (
              bn.to_array_le_lem u.number n 8 e h,
              size,
              check_bytes_lem (reverse bytes)
                  (All-reverse IsByte bytes (bytes_from-IsByte 8 n [] tt)),
              reverse-reverse bytes,
            )
            (new_uint64_lem (of_bytes bytes) n (back, h)),
        back,
      )

  -- Any eight bytes are accepted in big-endian order, and the number is written as these bytes.
  pub uint64_to_bytes-from_bytes :
      (bs : Bytes)
      → length bs ≡ 8
      → All IsByte bs
      → (u : Uint64 BN) × (from_bytes bn (numbers bs) be ≡ ok u) × (to_bytes_big_endian bn u ≡ bs)
  unfolding from_bytes to_bytes_big_endian
  uint64_to_bytes-from_bytes bs size h =
      let n = bytes_value 0 bs in
      let e : value (of_bytes bs) ≡ pos n = bn.value-of_bytes bs in
      let lt : n < 256 ^ 8 =
        subst (λ (k : ℕ). n < 256 ^ k) size (omega (arith, bytes_value-lt bs 0 h)) in
      let fits : (length (numbers bs) == 8) ≡ true =
        ground (arith, length-map bs (λ b. Number.int (pos b))) in
      (
        record { number = of_bytes bs },
        rw (fits, check_bytes_lem bs h) (new_uint64_lem (of_bytes bs) n (e, lt)),
        bn.to_array_lem (of_bytes bs) n 8 e lt
            ∙ bytes_from-bytes_value bs 0 8 0 [] (omega arith) h
            ∙ unfold bytes_from in append-nil bs,
      )
