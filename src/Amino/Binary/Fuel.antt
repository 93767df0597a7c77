-- ===== src/Amino/Binary/Fuel.antt =====
-- decodeAminoPubkey of packages/amino/src/encoding.ts: any two bounds of its recursion above the
-- length of the data are as good.
use Prim.Native.String.{String}
use cosmjs.Prelude.{
  ℕ, zero, suc, ◌≤◌, ◌<◌, ◌≡◌, refl, ◌⊎◌, inl, inr, [], ◌∷◌, arith, length, take, drop, length-drop,
  Result-cases, ok, throws, Bytes,
}
use cosmjs.Encoding.Base64.{Base64Js}
use cosmjs.Amino.Binary.{decode_uvarint, decode_pubkey, decode_participants, decode_amino_pubkey}

-- The participants are read only if there are six bytes before them.
pub short_or_less : (bs : Bytes) → (drop 5 bs ≡ []) ⊎ (length (drop 6 bs) < length bs)
short_or_less [] = inl refl
short_or_less (a ∷ []) = inl refl
short_or_less (a ∷ b ∷ []) = inl refl
short_or_less (a ∷ b ∷ c ∷ []) = inl refl
short_or_less (a ∷ b ∷ c ∷ d ∷ []) = inl refl
short_or_less (a ∷ b ∷ c ∷ d ∷ e ∷ []) = inl refl
short_or_less (a ∷ b ∷ c ∷ d ∷ e ∷ g ∷ bs) = inr (omega arith)

pub length-take-le : (n : ℕ) (xs : Bytes) → length (take n xs) ≤ length xs
length-take-le zero xs = omega arith
length-take-le (suc n) [] = omega arith
length-take-le (suc n) (x ∷ xs) = omega (arith, length-take-le n xs)

module _ (b64 : Base64Js) where
  same_pubkey :
      (f g : ℕ) (bytes : Bytes)
      → (drop 5 bytes ≡ [])
        ⊎ (decode_participants b64 f (drop 6 bytes) ≡ decode_participants b64 g (drop 6 bytes))
      → decode_pubkey b64 (suc f) bytes ≡ decode_pubkey b64 (suc g) bytes
  unfolding decode_pubkey decode_uvarint
  same_pubkey f g bytes (inl short) = rw short
  same_pubkey f g bytes (inr same) = rw same

  same_participants :
      (f g b n : ℕ) (reader : Bytes)
      → decode_pubkey b64 f (take n (drop 1 reader)) ≡ decode_pubkey b64 g (take n (drop 1 reader))
      → decode_participants b64 f (drop n (drop 1 reader))
        ≡ decode_participants b64 g (drop n (drop 1 reader))
      → decode_uvarint reader ≡ ok n
      → decode_participants b64 (suc f) (b ∷ reader) ≡ decode_participants b64 (suc g) (b ∷ reader)
  unfolding decode_participants
  same_participants f g b n reader here later read = rw (read, here, later)

  stuck_participants :
      (f g b : ℕ) (reader : Bytes) {m : String}
      → decode_uvarint reader ≡ throws m
      → decode_participants b64 (suc f) (b ∷ reader) ≡ decode_participants b64 (suc g) (b ∷ reader)
  unfolding decode_participants
  stuck_participants f g b reader read = rw read

  pub nonempty_reader :
      (reader : Bytes) (n : ℕ)
      → decode_uvarint reader ≡ ok n
      → suc (length (drop 1 reader)) ≡ length reader
  unfolding decode_uvarint
  nonempty_reader [] n h = cc
  nonempty_reader (b ∷ reader) n h = refl

  refl_nil : (f g : ℕ) → decode_participants b64 (suc f) [] ≡ decode_participants b64 (suc g) []
  unfolding decode_participants
  refl_nil f g = refl

  -- Any two numbers above the length of the data give the same result.
  mutual
    pub same_decoded :
        (f g : ℕ) (bytes : Bytes)
        → length bytes < f
        → length bytes < g
        → decode_pubkey b64 f bytes ≡ decode_pubkey b64 g bytes
    same_decoded zero g bytes hf hg = absurd (omega arith)
    same_decoded (suc f) zero bytes hf hg = absurd (omega arith)
    same_decoded (suc f) (suc g) bytes hf hg = elim (short_or_less bytes) [
      | inl short ↦ same_pubkey f g bytes (inl short)
      | inr less ↦
          same_pubkey f g bytes (inr (same_rest f g (drop 6 bytes) (omega arith) (omega arith)))
    ]

    same_rest :
        (f g : ℕ) (reader : Bytes)
        → length reader < f
        → length reader < g
        → decode_participants b64 f reader ≡ decode_participants b64 g reader
    same_rest zero g reader hf hg = absurd (omega arith)
    same_rest (suc f) zero reader hf hg = absurd (omega arith)
    same_rest (suc f) (suc g) [] hf hg = refl_nil f g
    same_rest (suc f) (suc g) (b ∷ reader) hf hg = elim (Result-cases (decode_uvarint reader)) [
      | inl (n, read) ↦
          let body = drop 1 reader in
          let size = nonempty_reader reader n read in
          same_participants f g b n reader
            (same_decoded f g (take n body) (omega (arith, length-take-le n body))
              (omega (arith, length-take-le n body)))
            (same_rest f g (drop n body) (omega (arith, length-drop n body))
              (omega (arith, length-drop n body)))
            read
      | inr (m, read) ↦ stuck_participants f g b reader read
    ]

  pub decode_amino_pubkey_fuel :
      (bytes : Bytes) (fuel : ℕ)
      → length bytes < fuel
      → decode_pubkey b64 fuel bytes ≡ decode_amino_pubkey b64 bytes
  unfolding decode_amino_pubkey
  decode_amino_pubkey_fuel bytes fuel h =
      same_decoded fuel (suc (length bytes)) bytes h (omega arith)
