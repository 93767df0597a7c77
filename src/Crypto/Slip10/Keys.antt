-- ===== src/Crypto/Slip10/Keys.antt =====
-- Keys of 32 bytes as numbers: what the tests and the sum of packages/crypto/src/slip10.ts compute.
use cosmjs.Prelude.{
  ℕ, ◌+◌, ◌*◌, ◌/◌, ◌%◌, ◌^◌, ◌≤◌, ◌<◌, ◌≡◌, refl, sym, ap, ◌∙◌, ◌⊎◌, inl, inr, true, false, not,
  ◌||◌, [], ◌∷◌, arith, ltb, leb, ◌==◌, Bool-cases, length, ok, Bytes,
}
use cosmjs.Prelude.Int.{pos}
use cosmjs.Math.BigNumber.{BigNumber, bytes_value, bytes_from}
use cosmjs.Math.Uint32.{to_bytes_big_endian}
use cosmjs.Math.Uint64.ByteOrder.{bytes_value-bytes_from, length-bytes_from}
use cosmjs.Crypto.HdPath.{Slip10RawIndex}
use cosmjs.Crypto.Slip10.{curve_n, secp256k1, secp256k1_order, is_zero_key, is_bad_master, is_gte_n}
use cosmjs.Crypto.Slip10.Derivation.{number, ser32, order}

pub order_lem : number secp256k1_order ≡ order
unfolding bytes_value
order_lem = refl

pub ser32_lem : (index : Slip10RawIndex) → to_bytes_big_endian index ≡ ser32 index.value
unfolding to_bytes_big_endian bytes_from
ser32_lem index =
    let first : index.value / 2 ^ 24 % 256 ≡ index.value / 256 / 256 / 256 % 256 = omega arith in
    let second : index.value / 2 ^ 16 % 256 ≡ index.value / 256 / 256 % 256 = omega arith in
    let last : index.value / 2 ^ 0 % 256 ≡ index.value % 256 = omega arith in
    rw (first, second, last)

bytes_value-pos : (acc : ℕ) (bs : Bytes) → 0 < acc → 0 < bytes_value acc bs
unfolding bytes_value
bytes_value-pos acc [] h = h
bytes_value-pos acc (b ∷ bs) h = bytes_value-pos (acc * 256 + b) bs (omega arith)

pub zero_key : (bs : Bytes) → is_zero_key bs ≡ true → number bs ≡ 0
unfolding is_zero_key bytes_value
zero_key [] h = refl
zero_key (b ∷ bs) h = elim (Bool-cases (b == 0)) [
  | inl e ↦ let zero_byte : b ≡ 0 = ground arith in rw zero_byte (zero_key bs (rw e at h))
  | inr e ↦ let never = rw e at h in absurd (ground arith)
]

pub nonzero_key : (bs : Bytes) → is_zero_key bs ≡ false → 0 < number bs
unfolding is_zero_key bytes_value
nonzero_key [] h = absurd (ground arith)
nonzero_key (b ∷ bs) h = elim (Bool-cases (b == 0)) [
  | inl e ↦ let zero_byte : b ≡ 0 = ground arith in rw zero_byte (nonzero_key bs (rw e at h))
  | inr e ↦ bytes_value-pos (0 + b) bs (ground arith)
]

module _ (bn : BigNumber) where
  open bn use {value, of_bytes, mod_of, add, to_array}

  order_value : value (of_bytes secp256k1_order) ≡ pos order
  order_value = bn.value-of_bytes secp256k1_order ∙ ap (λ (n : ℕ). pos n) order_lem

  pub is_gte_n_lem : (bs : Bytes) → is_gte_n bn secp256k1 bs ≡ ok (leb order (number bs))
  unfolding is_gte_n curve_n
  is_gte_n_lem bs =
      let below : not (ltb (number bs) order) ≡ leb order (number bs) = ground arith in
      rw (
        bn.gt_lem (of_bytes secp256k1_order) (of_bytes bs) order (number bs) order_value
            (bn.value-of_bytes bs),
        below,
      )

  -- The sum of the left half and the key of the parent, as 32 bytes.
  abbrev pub child_key : Bytes → Bytes → Bytes
  child_key il parent =
      to_array (mod_of (add (of_bytes il) (of_bytes parent)) (of_bytes secp256k1_order)) 32

  pub sum_lem :
      (il parent : Bytes)
      → (length (child_key il parent) ≡ 32)
        × (number (child_key il parent) ≡ (number il + number parent) % order)
  unfolding bytes_value
  sum_lem il parent =
      let m = (number il + number parent) % order in
      let total =
        bn.value-add (of_bytes il) (of_bytes parent) (number il) (number parent)
          (bn.value-of_bytes il) (bn.value-of_bytes parent) in
      let rest =
        bn.value-mod (add (of_bytes il) (of_bytes parent)) (of_bytes secp256k1_order)
          (number il + number parent) order total order_value (omega arith) in
      let fits : m < 256 ^ 32 = omega arith in
      rw (bn.to_array_lem _ m 32 rest fits)
        (length-bytes_from 32 m [], bytes_value-bytes_from 32 m [] fits)

  pub master_cases :
      (il : Bytes)
      → ((is_bad_master bn secp256k1 il ≡ ok true) × ((number il ≡ 0) ⊎ (order ≤ number il)))
        ⊎ ((is_bad_master bn secp256k1 il ≡ ok false) × (0 < number il) × (number il < order))
  unfolding is_bad_master
  master_cases il = elim (Bool-cases (is_zero_key il)) [
    | inl e ↦ inl (rw e refl, inl (zero_key il e))
    | inr e ↦ elim (Bool-cases (leb order (number il))) [
      | inl e' ↦ inl (rw (e, is_gte_n_lem il, e') refl, inr (ground arith))
      | inr e' ↦ inr (rw (e, is_gte_n_lem il, e') refl, nonzero_key il e, ground arith)
    ]
  ]

  pub key_cases :
      (il parent : Bytes)
      → (((leb order (number il) || is_zero_key (child_key il parent)) ≡ true)
          × ((order ≤ number il) ⊎ ((number il + number parent) % order ≡ 0)))
        ⊎ (((leb order (number il) || is_zero_key (child_key il parent)) ≡ false)
            × (number il < order)
            × (0 < number (child_key il parent)))
  key_cases il parent = elim (Bool-cases (leb order (number il))) [
    | inl e ↦ inl (rw e refl, inl (ground arith))
    | inr e ↦ elim (Bool-cases (is_zero_key (child_key il parent))) [
      | inl e' ↦
          inl (rw (e, e') refl, inr (sym (sum_lem il parent).1 ∙ zero_key (child_key il parent) e'))
      | inr e' ↦ inr (rw (e, e') refl, ground arith, nonzero_key (child_key il parent) e')
    ]
  ]
