-- ===== src/Math/Decimal/Trim.antt =====
-- Dropping zeros at the end of a text, and padding with zeros.
use cosmjs.Prelude.{
  suc, ◌-◌, ◌≤◌, ◌≡◌, refl, inl, inr, [], ◌∷◌, arith, ◌==◌, Bool-cases, length, All, Text, IsDigit,
}
use cosmjs.Math.Decimal.{trim_zeros, trim_step, pad_end}

pub length-trim_zeros : (s : Text) → length (trim_zeros s) ≤ length s
unfolding trim_zeros
length-trim_zeros [] = omega arith
length-trim_zeros (c ∷ s) = ground (arith, length-trim_zeros s)

-- Padding the trimmed text back to its old length gives the text.
pub pad_end-trim_zeros : (s : Text) → pad_end (trim_zeros s) (length s) ≡ s
unfolding trim_zeros
pad_end-trim_zeros [] = refl
pad_end-trim_zeros (c ∷ s) = step (trim_zeros s) (length-trim_zeros s) (pad_end-trim_zeros s)
  where
    step :
        (t : Text)
        → length t ≤ length s
        → pad_end t (length s) ≡ s
        → pad_end (trim_step c t) (suc (length s)) ≡ c ∷ s
    step [] fits ih = elim (Bool-cases (c == b'0')) [
      | inl z ↦
          let same : c ≡ b'0' = ground arith in
          let gap : suc (length s) - 0 ≡ suc (length s - 0) = omega arith in rw (z, gap, same, ih)
      | inr nz ↦ let gap : suc (length s) - 1 ≡ length s - 0 = omega arith in rw (nz, gap, ih)
    ]
    step (d ∷ t) fits ih =
        let gap : suc (length s) - suc (suc (length t)) ≡ length s - suc (length t) = omega arith in
        rw (gap, ih)

-- All digits are kept but zeros at the end.
pub All-trim_zeros : (s : Text) → All IsDigit s → All IsDigit (trim_zeros s)
unfolding trim_zeros
All-trim_zeros [] h = tt
All-trim_zeros (c ∷ s) h = step (trim_zeros s) (All-trim_zeros s h.1)
  where
    step : (t : Text) → All IsDigit t → All IsDigit (trim_step c t)
    step [] k = ground arith
    step (d ∷ t) k = (h.0, k)

-- Trimming what is trimmed changes nothing.
pub trim_zeros_idem : (s : Text) → trim_zeros (trim_zeros s) ≡ trim_zeros s
unfolding trim_zeros
trim_zeros_idem [] = refl
trim_zeros_idem (c ∷ s) = step (trim_zeros s) (trim_zeros_idem s)
  where
    step : (t : Text) → trim_zeros t ≡ t → trim_zeros (trim_step c t) ≡ trim_step c t
    step [] ih = ground arith
    step (d ∷ t) ih = rw ih
