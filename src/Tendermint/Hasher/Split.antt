-- ===== src/Tendermint/Hasher/Split.antt =====
-- The split point is the greatest power of two below the number of leaves.
use native.Mathlib.Nat.{pow-suc, pow-zero}
use cosmjs.Prelude.{
  ℕ, zero, suc, ◌*◌, ◌/◌, ◌^◌, ◌≤◌, ◌<◌, ◌≡◌, refl, inl, inr, false, arith, ltb, Bool-cases, ok,
}
use cosmjs.Tendermint.Hasher.{floor_log2, get_split_point}

floor_log2_lem :
    (fuel n : ℕ) → n ≤ fuel → 1 ≤ n → (2 ^ floor_log2 fuel n ≤ n) × (n < 2 * 2 ^ floor_log2 fuel n)
unfolding floor_log2
floor_log2_lem zero n h one = absurd (omega arith)
floor_log2_lem (suc fuel) n h one = elim (Bool-cases (ltb n 2)) [
  | inl small ↦
      let e : n ≡ 1 = ground arith in
      rw (small, e) (omega (arith, pow-zero 2), omega (arith, pow-zero 2))
  | inr large ↦
      let least : 2 ≤ n = ground arith in
      let (low, high) = floor_log2_lem fuel (n / 2) (omega arith) (omega arith) in
      let e = pow-suc 2 (floor_log2 fuel (n / 2)) in
      rw large (omega (arith, low, high, e), omega (arith, low, high, e))
]

-- A power of two from 2 on is twice another.
half_power : (k n : ℕ) → 2 ≤ n → 2 ^ k ≡ n → (j : ℕ) × (n ≡ 2 * 2 ^ j)
half_power zero n h e = absurd (omega (arith, pow-zero 2))
half_power (suc k) n h e = (k, omega (arith, pow-suc 2 k))

-- For two leaves or more the split point is a power of two below their number, and at least half
-- of it.
pub get_split_point_lem :
    (n : ℕ) → 2 ≤ n → (p k : ℕ) × (get_split_point n ≡ ok p) × (p ≡ 2 ^ k) × (p < n) × (n ≤ 2 * p)
unfolding get_split_point
get_split_point_lem n h =
    let one : ltb n 1 ≡ false = ground arith in
    let (low, high) = floor_log2_lem n n (omega arith) (omega arith) in
    elim (Bool-cases (ltb (2 ^ floor_log2 n n) n)) [
      | inl below ↦ (
        2 ^ floor_log2 n n,
        floor_log2 n n,
        rw (one, below),
        refl,
        ground arith,
        omega (arith, high),
      )
      | inr same ↦
          let e : 2 ^ floor_log2 n n ≡ n = ground arith in
          let (k, half) = half_power (floor_log2 n n) n h e in
          (
            2 ^ floor_log2 n n / 2,
            k,
            rw (one, same),
            rw e (omega (arith, half)),
            rw e (omega arith),
            rw e (omega (arith, half)),
          )
    ]
