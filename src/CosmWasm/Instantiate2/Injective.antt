-- ===== src/CosmWasm/Instantiate2/Injective.antt =====
-- Different inputs have different keys.

use cosmjs.Prelude.{
  ◌^◌, ◌<◌, ◌≡◌, refl, sym, ap, ◌∙◌, [], ◌∷◌, ◌++◌, append-nil, length, take, drop, take_exact,
  drop_exact, Result, ok, throws, Bytes, codes,
}
use cosmjs.Prelude.Int.{pos}
use cosmjs.Math.BigNumber.{BigNumber, bytes_from, bytes_value}
use cosmjs.Math.Uint64.{from_number, to_bytes_big_endian}
use cosmjs.Math.Uint64.ByteOrder.{bytes_value-bytes_from, length-bytes_from, new_uint64_lem}
use cosmjs.Encoding.Ascii.{to_ascii}
use cosmjs.CosmWasm.Instantiate2.{to_uint64, key_of}

-- The eight bytes of a length.
abbrev size_of : Bytes → Bytes
size_of bs = bytes_from 8 (length bs) []

-- A length that 64 bits hold.
abbrev pub IsShort : Bytes → Type 0
IsShort bs = length bs < 2 ^ 64

to_uint64_lem :
    (bn : BigNumber) (bs : Bytes) → IsShort bs → to_uint64 bn (length bs) ≡ ok (size_of bs)
unfolding to_uint64 from_number to_bytes_big_endian
to_uint64_lem bn bs h =
    let n = length bs in
    rw
      (
        new_uint64_lem bn (bn.of_int (pos n)) n (bn.value-of_int (pos n), h),
        bn.to_array_lem (bn.of_int (pos n)) n 8 (bn.value-of_int (pos n)) h,
      )
      refl

same_length : (a b : Bytes) → IsShort a → IsShort b → size_of a ≡ size_of b → length a ≡ length b
unfolding bytes_value
same_length a b ha hb e =
    sym (bytes_value-bytes_from 8 (length a) [] ha)
    ∙ ap (bytes_value 0) e
    ∙ bytes_value-bytes_from 8 (length b) [] hb

-- Bytes behind their length, and what follows, are told apart.
unframe :
    (a b r s : Bytes)
    → IsShort a
    → IsShort b
    → size_of a ++ (a ++ r) ≡ size_of b ++ (b ++ s)
    → (a ≡ b) × (r ≡ s)
unframe a b r s ha hb e =
    let la : length (size_of a) ≡ 8 = length-bytes_from 8 (length a) [] in
    let lb : length (size_of b) ≡ 8 = length-bytes_from 8 (length b) [] in
    let sizes : size_of a ≡ size_of b =
      sym (take_exact 8 (size_of a) (a ++ r) la)
      ∙ ap (take 8) e
      ∙ take_exact 8 (size_of b) (b ++ s) lb in
    let rests : a ++ r ≡ b ++ s =
      sym (drop_exact 8 (size_of a) (a ++ r) la)
      ∙ ap (drop 8) e
      ∙ drop_exact 8 (size_of b) (b ++ s) lb in
    let n = same_length a b ha hb sizes in
    (
      sym (take_exact (length a) a r refl)
          ∙ ap (take (length a)) rests
          ∙ take_exact (length a) b s (sym n),
      sym (drop_exact (length a) a r refl)
          ∙ ap (drop (length a)) rests
          ∙ drop_exact (length a) b s (sym n),
    )

key_of_lem :
    (bn : BigNumber) (c d s m : Bytes)
    → IsShort c
    → IsShort d
    → IsShort s
    → IsShort m
    → key_of bn c d s m
      ≡ ok (
          codes "wasm"
          ++ (0
              ∷ (size_of c
                  ++ (c ++ (size_of d ++ (d ++ (size_of s ++ (s ++ (size_of m ++ (m ++ []))))))))))
unfolding key_of to_ascii
key_of_lem bn c d s m hc hd hs hm =
    rw
      (
        to_uint64_lem bn c hc,
        to_uint64_lem bn d hd,
        to_uint64_lem bn s hs,
        to_uint64_lem bn m hm,
        append-nil m,
      )
      refl

-- The checksum, the creator, the salt and the message, each shorter than 2^64 bytes, determine the
-- key and are determined by it: two inputs with the same key are the same.
pub key_of_injective :
    (bn : BigNumber) (c d s m c_2 d_2 s_2 m_2 : Bytes)
    → IsShort c
    → IsShort d
    → IsShort s
    → IsShort m
    → IsShort c_2
    → IsShort d_2
    → IsShort s_2
    → IsShort m_2
    → key_of bn c d s m ≡ key_of bn c_2 d_2 s_2 m_2
    → (c ≡ c_2) × (d ≡ d_2) × (s ≡ s_2) × (m ≡ m_2)
key_of_injective bn c d s m c_2 d_2 s_2 m_2 hc hd hs hm hc_2 hd_2 hs_2 hm_2 e =
    let both =
      sym (key_of_lem bn c d s m hc hd hs hm)
      ∙ e
      ∙ key_of_lem bn c_2 d_2 s_2 m_2 hc_2 hd_2 hs_2 hm_2 in
    let (same_c, e_c) = unframe c c_2 _ _ hc hc_2 (ap behind_wasm both) in
    let (same_d, e_d) = unframe d d_2 _ _ hd hd_2 e_c in
    let (same_s, e_s) = unframe s s_2 _ _ hs hs_2 e_d in
    let (same_m, e_m) = unframe m m_2 [] [] hm hm_2 e_s in (same_c, same_d, same_s, same_m)
  where
    behind_wasm : Result Bytes → Bytes
    behind_wasm (ok key) = drop 5 key
    behind_wasm (throws message) = []
