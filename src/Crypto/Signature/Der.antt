-- ===== src/Crypto/Signature/Der.antt =====
-- The DER encoding.
use cosmjs.Prelude.{
  suc, ◌+◌, ◌-◌, ◌%◌, ◌≤◌, ◌≡◌, true, false, [], ◌∷◌, ◌++◌, arith, leb, ◌==◌, Bytes, length,
  length-append, take-append, drop-append, append-nil, ok,
}
use cosmjs.Crypto.Signature.{
  trim_leading_null_bytes, Secp256k1Signature, der_tag_integer, read_integer, from_der, der_integer,
  to_der,
}
use cosmjs.Crypto.Signature.Numbers.{IsUnpadded}
use cosmjs.Crypto.Signature.Fixed.{IsValid, new_signature_lem}

length-der_integer : (x : Bytes) → IsUnpadded x → length (der_integer x) ≤ 33
unfolding der_integer
length-der_integer [] h = absurd h
length-der_integer (b ∷ bs) h = ground arith

trim-der_integer : (x : Bytes) → IsUnpadded x → trim_leading_null_bytes (der_integer x) ≡ x
unfolding der_integer trim_leading_null_bytes
trim-der_integer [] h = absurd h
trim-der_integer (b ∷ bs) h = ground arith

-- A short integer is read back, with what follows it.
read_integer_lem :
    (x rest : Bytes)
    → length x ≤ 33
    → read_integer (der_tag_integer ∷ (length x % 256) ∷ (x ++ rest)) ≡ ok (x, rest)
unfolding read_integer
read_integer_lem x rest h =
    let small : length x % 256 ≡ length x = omega arith in
    let short : leb 0x80 (length x) ≡ false = ground arith in
    rw (small, short, take-append x rest, drop-append x rest)

-- The DER encoding of a valid signature, that is of an unpadded r and s of 1 to 32 bytes, is
-- decoded to the signature.
pub from_der-to_der : (sig : Secp256k1Signature) → IsValid sig → from_der (to_der sig) ≡ ok sig
unfolding from_der to_der
from_der-to_der sig (hr, hs) =
    let r = der_integer sig.r in
    let s = der_integer sig.s in
    let lr = length-der_integer sig.r hr in
    let ls = length-der_integer sig.s hs in
    let tail = der_tag_integer ∷ (length s % 256) ∷ s in
    let size : length (r ++ tail) ≡ length r + suc (suc (length s)) = length-append r tail in
    let fits : (suc (suc (length (r ++ tail))) % 256
          == (suc (suc (suc (suc (length (r ++ tail))))) - 2))
        ≡ true =
      ground (arith, size) in
    let last : read_integer tail ≡ ok (s, []) = rw append-nil at (read_integer_lem s [] ls) in
    rw
      (fits, read_integer_lem r tail lr, last, trim-der_integer sig.r hr, trim-der_integer sig.s hs)
      (new_signature_lem sig.r sig.s hr hs)
