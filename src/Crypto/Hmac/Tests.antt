-- ===== src/Crypto/Hmac/Tests.antt =====
-- HMAC over a hash function that stands for SHA-256.
use cosmjs.Prelude.{◌≤◌, ◌≡◌, refl, [], ◌∷◌, ◌++◌, arith, length, take, length-take, Bytes, codes}
use cosmjs.Crypto.Hmac.{HashFunction, update_all, new_hmac, digest}
use cosmjs.Crypto.Hmac.Reference.{joined, rfc2104, digest_lem}

-- The state is what was absorbed; the hash is its first 32 bytes.
abbrev stand_in : HashFunction
stand_in = record {
  S = Bytes;
  block_size = 64;
  create = [];
  update_hash = λ s input. s ++ input;
  digest_hash = λ s. take 32 s;
  absorbed = λ s. s;
  hash = λ input. take 32 input;
  absorbed-create = refl;
  absorbed-update_hash = λ s input. refl;
  digest_hash_lem = λ s. refl;
}

short_hash : (input : Bytes) → length (take 32 input) ≤ 64
short_hash input = omega (arith, length-take 32 input)

-- The text comes in two pieces.
digest_lem_example :
    digest stand_in (
      update_all stand_in (new_hmac stand_in (codes "key")) (codes "The quick " ∷ codes "fox" ∷ []))
    ≡ rfc2104 stand_in (codes "key") (joined (codes "The quick " ∷ codes "fox" ∷ []))
digest_lem_example =
    digest_lem stand_in short_hash (codes "key") (codes "The quick " ∷ codes "fox" ∷ [])
