-- ===== src/Crypto/Signature/Extended.antt =====
-- packages/crypto/src/secp256k1signature.ts, class ExtendedSecp256k1Signature.
use cosmjs.Prelude.{
  ℕ, zero, suc, ◌%◌, ◌≤◌, ◌≡◌, refl, sym, ap, ◌∙◌, ◌↔◌, inl, inr, true, false, not, some, [], ◌∷◌,
  ◌++◌, arith, ltb, ◌==◌, if◌then◌else◌, Bool-cases, length, get_elem?, length-append, take, slice,
  Result, ◌>>=◌, ◌>>◌, throw_if, Result-cases, ok, throws, Bytes,
}
use cosmjs.Prelude.Int.{pos, negsuc}
use cosmjs.Math.Number.{Number, nan, infinite, fraction, large, int}
use cosmjs.Crypto.Signature.{
  Secp256k1Signature, trim_leading_null_bytes, new_signature, count_of, from_fixed_length, r_padded,
  s_padded, to_fixed_length,
}
use cosmjs.Crypto.Signature.Fixed.{
  IsValid, new_signature_sound, new_signature_lem, from_fixed_length-to_fixed_length,
}

pub record ExtendedSecp256k1Signature : Type 0 where
  pub signature : Secp256k1Signature
  pub recovery : ℕ

abbrev check_recovery : Number → Result ℕ
check_recovery nan = throws "The recovery parameter must be an integer."
check_recovery infinite = throws "The recovery parameter must be an integer."
check_recovery fraction = throws "The recovery parameter must be an integer."
check_recovery (large negative) = throws "The recovery parameter must be one of 0, 1, 2, 3."
check_recovery (int (negsuc n)) = throws "The recovery parameter must be one of 0, 1, 2, 3."
check_recovery (int (pos n)) =
    if ltb 4 n then throws "The recovery parameter must be one of 0, 1, 2, 3." else ok n

-- The constructor.
unfoldable pub new_extended : Bytes → Bytes → Number → Result ExtendedSecp256k1Signature
new_extended r s recovery = do
  signature ← new_signature r s
  checked ← check_recovery recovery
  ok (record { signature = signature; recovery = checked })

-- `data[64]` is there: the data has 65 bytes.
unfoldable pub extended_from_fixed_length : Bytes → Result ExtendedSecp256k1Signature
extended_from_fixed_length bytes = do
  throw_if (not (length bytes == 65)) "Got invalid data length. Expected 32 + 32 + 1"
  new_extended (trim_leading_null_bytes (slice bytes 0 32))
      (trim_leading_null_bytes (slice bytes 32 64)) (int (pos (count_of (get_elem? bytes 64))))

unfoldable pub extended_to_fixed_length : ExtendedSecp256k1Signature → Result Bytes
extended_to_fixed_length sig = do
  r ← r_padded 32 sig.signature
  s ← s_padded 32 sig.signature
  ok (r ++ s ++ (sig.recovery % 256) ∷ [])

-- The recovery parameters that pass the check.
check_recovery_sound :
    (recovery : Number) (n : ℕ)
    → check_recovery recovery ≡ ok n
    → (recovery ≡ int (pos n)) × (n ≤ 4)
check_recovery_sound nan n h = absurd (ground arith)
check_recovery_sound infinite n h = absurd (ground arith)
check_recovery_sound fraction n h = absurd (ground arith)
check_recovery_sound (large negative) n h = absurd (ground arith)
check_recovery_sound (int (negsuc m)) n h = absurd (ground arith)
check_recovery_sound (int (pos m)) n h = elim (Bool-cases (ltb 4 m)) [
  | inl above ↦ absurd (ground arith)
  | inr fits ↦ let same : m ≡ n = ground arith in (ap (λ (k : ℕ). int (pos k)) same, ground arith)
]

not_above : (n : ℕ) → n ≤ 4 → ltb 4 n ≡ false
not_above n h = ground arith

new_extended_lem :
    (sig : ExtendedSecp256k1Signature)
    → IsValid sig.signature
    → sig.recovery ≤ 4
    → new_extended sig.signature.r sig.signature.s (int (pos sig.recovery)) ≡ ok sig
unfolding new_extended
new_extended_lem sig valid h =
    rw (new_signature_lem sig.signature.r sig.signature.s valid.0 valid.1, not_above sig.recovery h)

new_extended_sound :
    (r s : Bytes) (recovery : Number) (sig : ExtendedSecp256k1Signature)
    → new_extended r s recovery ≡ ok sig
    → (sig.signature ≡ record { r = r; s = s })
      × IsValid sig.signature
      × (recovery ≡ int (pos sig.recovery))
      × (sig.recovery ≤ 4)
unfolding new_extended
new_extended_sound r s recovery sig h = elim (Result-cases (new_signature r s)) [
  | inr (m, e) ↦ let never = rw e at h in absurd (ground arith)
  | inl (signature, e) ↦ elim (Result-cases (check_recovery recovery)) [
    | inr (m, e') ↦ let never = rw (e, e') at h in absurd (ground arith)
    | inl (n, e') ↦
        let (hr, hs, same) = new_signature_sound r s signature e in
        let (number, fits) = check_recovery_sound recovery n e' in
        let whole = rw (e, e') at h in
        let made : record { signature = signature; recovery = n } ≡ sig = ground arith in
        rw (← made) (same, rw same (hr, hs), number, fits)
  ]
]

-- The constructor makes a signature exactly when r and s are unpadded integers of 1 to 32 bytes and
-- the recovery parameter, any number of the language, is one of the integers 0 to 4: it stores all
-- three as they are. It refuses everything else, negative numbers, fractions and NaN included.
pub new_extended_iff :
    (r s : Bytes) (recovery : Number) (sig : ExtendedSecp256k1Signature)
    → (new_extended r s recovery ≡ ok sig) ↔ (
        (sig.signature ≡ record { r = r; s = s })
        × IsValid sig.signature
        × (recovery ≡ int (pos sig.recovery))
        × (sig.recovery ≤ 4))
new_extended_iff r s recovery sig = (
  new_extended_sound r s recovery sig,
  λ h.
      let r_stored : r ≡ sig.signature.r = ap (λ (t : Secp256k1Signature). t.r) (sym h.0) in
      let s_stored : s ≡ sig.signature.s = ap (λ (t : Secp256k1Signature). t.s) (sym h.0) in
      rw (r_stored, s_stored, h.2) (new_extended_lem sig h.1 h.3),
)

take-append_le : (k : ℕ) (xs ys : Bytes) → k ≤ length xs → take k (xs ++ ys) ≡ take k xs
take-append_le zero xs ys h = refl
take-append_le (suc k) [] ys h = absurd (omega arith)
take-append_le (suc k) (x ∷ xs) ys h = ap (λ t. x ∷ t) (take-append_le k xs ys (omega arith))

get_elem?-last : (xs : Bytes) (n : ℕ) → get_elem? (xs ++ n ∷ []) (length xs) ≡ some n
get_elem?-last [] n = refl
get_elem?-last (x ∷ xs) n = get_elem?-last xs n

-- The extended encoding is that of the signature with the parameter behind it.
join_recovery :
    (r s : Result Bytes) (last : Bytes)
    → (r >>= λ x. s >>= λ y. ok (x ++ y ++ last))
      ≡ ((r >>= λ x. s >>= λ y. ok (x ++ y)) >>= λ bytes. ok (bytes ++ last))
join_recovery (ok x) (ok y) last = refl
join_recovery (ok x) (throws m) last = refl
join_recovery (throws m) s last = refl

extended_lem :
    (sig : ExtendedSecp256k1Signature) (bytes : Bytes)
    → sig.recovery ≤ 4
    → to_fixed_length sig.signature ≡ ok bytes
    → extended_to_fixed_length sig ≡ ok (bytes ++ sig.recovery ∷ [])
unfolding extended_to_fixed_length to_fixed_length
extended_lem sig bytes h e =
    let small : sig.recovery % 256 ≡ sig.recovery = omega arith in
    join_recovery (r_padded 32 sig.signature) (s_padded 32 sig.signature)
      ((sig.recovery % 256) ∷ [])
    ∙ rw (e, small)

-- One more byte leaves the halves of 64 bytes as they are.
read_extended :
    (sig : Secp256k1Signature) (bytes : Bytes) (n : ℕ)
    → length bytes ≡ 64
    → from_fixed_length bytes ≡ ok sig
    → n ≤ 4
    → extended_from_fixed_length (bytes ++ n ∷ []) ≡ ok (record { signature = sig; recovery = n })
unfolding extended_from_fixed_length from_fixed_length new_extended
read_extended sig bytes n size e h =
    let fits = not_above n h in
    let total : length (bytes ++ n ∷ []) ≡ 65 = omega (arith, length-append bytes (n ∷ [])) in
    let whole : (length bytes == 64) ≡ true = ground arith in
    let low = take-append_le 32 bytes (n ∷ []) (omega arith) in
    let high = take-append_le 64 bytes (n ∷ []) (omega arith) in
    let last : get_elem? (bytes ++ n ∷ []) 64 ≡ some n = rw (← size) (get_elem?-last bytes n) in
    let made = rw whole at e in rw (total, low, high, last) (rw made (rw fits))

-- A valid signature with a recovery parameter up to 4 is encoded in 65 bytes, and decoding them
-- gives it back.
pub extended_round_trip :
    (sig : ExtendedSecp256k1Signature)
    → IsValid sig.signature
    → sig.recovery ≤ 4
    → (bytes : Bytes) × (extended_to_fixed_length sig ≡ ok bytes)
      × (length bytes ≡ 65)
      × (extended_from_fixed_length bytes ≡ ok sig)
extended_round_trip sig valid h =
    let (bytes, written, size, back) = from_fixed_length-to_fixed_length sig.signature valid in
    (
      bytes ++ sig.recovery ∷ [],
      extended_lem sig bytes h written,
      omega (arith, length-append bytes (sig.recovery ∷ [])),
      read_extended sig.signature bytes sig.recovery size back h,
    )
