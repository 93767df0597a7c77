-- ===== src/Math/Decimal/Digits.antt =====
-- Decimal digits and powers of ten.
use native.Mathlib.Nat.{pow-suc, pow-zero, pow-le-pow_right}
use native.Mathlib.Decide.{dec_lt}
use cosmjs.Prelude.{
  ℕ, zero, suc, ◌+◌, ◌-◌, ◌*◌, ◌^◌, ◌≤◌, ◌<◌, ◌≡◌, refl, [], ◌∷◌, ◌++◌, arith, length, replicate,
  All, Text, IsDigit, value_from,
}

pub value_from-append :
    (acc : ℕ) (s t : Text) → value_from acc (s ++ t) ≡ value_from (value_from acc s) t
unfolding value_from
value_from-append acc [] t = refl
value_from-append acc (c ∷ s) t = value_from-append (acc * 10 + (c - b'0')) s t

pub value_from-shift :
    (acc : ℕ) (s : Text) → value_from acc s ≡ acc * 10 ^ length s + value_from 0 s
unfolding value_from
value_from-shift acc [] = omega (arith, pow-zero 10)
value_from-shift acc (c ∷ s) =
    let d = c - b'0' in
    let p = 10 ^ length s in
    let e : 10 ^ suc (length s) ≡ p * 10 = pow-suc 10 (length s) in
    rw e (omega (arith, value_from-shift (acc * 10 + d) s, value_from-shift (0 * 10 + d) s))

pub value_from-zeros : (acc n : ℕ) → value_from acc (replicate n b'0') ≡ acc * 10 ^ n
unfolding value_from
value_from-zeros acc zero = omega (arith, pow-zero 10)
value_from-zeros acc (suc n) =
    let e : 10 ^ suc n ≡ 10 ^ n * 10 = pow-suc 10 n in
    rw e (omega (arith, value_from-zeros (acc * 10 + (b'0' - b'0')) n))

pub one-le-ten_pow : (n : ℕ) → 0 < 10 ^ n
one-le-ten_pow zero = omega (arith, pow-zero 10)
one-le-ten_pow (suc n) = rw pow-suc (omega (arith, one-le-ten_pow n))

-- Digits that spell less than 10^d behind a leading digit that is not zero are at most d.
pub length-le_of_value :
    (c : ℕ) (s : Text) (d : ℕ) → b'0' < c → value_from 0 (c ∷ s) < 10 ^ d → length (c ∷ s) ≤ d
unfolding value_from
length-le_of_value c s d h lt = elim (dec_lt (length s) d) [
  | yes p ↦ p
  | no p ↦
      let grows : 10 ^ d ≤ 10 ^ length s = pow-le-pow_right (omega arith) (omega arith) in
      let digit : 1 * 10 ^ length s ≤ (c - b'0') * 10 ^ length s = grind arith in
      absurd (omega (arith, value_from-shift (0 * 10 + (c - b'0')) s))
]

pub IsDigit-zeros : (n : ℕ) → All IsDigit (replicate n b'0')
IsDigit-zeros zero = tt
IsDigit-zeros (suc n) = ((omega arith, omega arith), IsDigit-zeros n)
