-- ===== src/Crypto/Hmac/Reference.antt =====
-- HMAC as RFC 2104 describes it.
use Prim.Native.Nat.{bit_xor}
use cosmjs.Prelude.{
  ℕ, zero, suc, ◌-◌, ◌≤◌, ◌≡◌, refl, sym, ap, ◌∙◌, inl, inr, List, [], ◌∷◌, ◌++◌, append_assoc,
  append-nil, arith, ltb, if◌then◌else◌, Bool-cases, length, replicate, Bytes,
}
use cosmjs.Crypto.Hmac.{
  HashFunction, Hmac, hash_all, shortened, padded, xor_all, update, new_hmac, digest, update_all,
}

-- The first n bytes of a key, with zeros behind it, each combined with the byte `pad`.
unfoldable pub pad_key : ℕ → ℕ → Bytes → Bytes
pad_key zero pad key = []
pad_key (suc n) pad [] = bit_xor 0 pad ∷ pad_key n pad []
pad_key (suc n) pad (b ∷ key) = bit_xor b pad ∷ pad_key n pad key

abbrev pub joined : List Bytes → Bytes
joined [] = []
joined (input ∷ more) = input ++ joined more

module _ (h : HashFunction) where
  -- A key that is longer than a block is hashed; the text is hashed behind the key with the inner
  -- pad, and the result behind the key with the outer pad.
  unfoldable pub hmac_key : Bytes → Bytes
  hmac_key key = if ltb h.block_size (length key) then h.hash key else key

  unfoldable pub rfc2104 : Bytes → Bytes → Bytes
  unfolding hmac_key pad_key
  rfc2104 key text = h.hash (
      pad_key h.block_size 0x5c (hmac_key key)
      ++ h.hash (pad_key h.block_size 0x36 (hmac_key key) ++ text))

  zeros_padded : (n pad : ℕ) → pad_key n pad [] ≡ xor_all h pad (replicate n 0)
  unfolding pad_key
  zeros_padded zero pad = refl
  zeros_padded (suc n) pad = ap (λ s. bit_xor 0 pad ∷ s) (zeros_padded n pad)

  pad_key_lem :
      (n pad : ℕ) (key : Bytes)
      → length key ≤ n
      → pad_key n pad key ≡ xor_all h pad (key ++ replicate (n - length key) 0)
  unfolding pad_key
  pad_key_lem n pad [] fits =
      let all_zeros : n - 0 ≡ n = omega arith in rw all_zeros (zeros_padded n pad)
  pad_key_lem zero pad (b ∷ key) fits = absurd (omega arith)
  pad_key_lem (suc n) pad (b ∷ key) fits =
      let left : suc n - suc (length key) ≡ n - length key = omega arith in
      rw left (ap (λ s. bit_xor b pad ∷ s) (pad_key_lem n pad key (omega arith)))

  pad_padded :
      (pad : ℕ) (key : Bytes)
      → length key ≤ h.block_size
      → xor_all h pad (padded h key) ≡ pad_key h.block_size pad key
  pad_padded pad key fits = elim (Bool-cases (ltb (length key) h.block_size)) [
    | inl short ↦ rw short (sym (pad_key_lem h.block_size pad key fits))
    | inr full ↦
        let none_left : h.block_size - length key ≡ 0 = ground arith in
        rw (full, pad_key_lem h.block_size pad key fits, none_left, append-nil key) refl
  ]

  hash_all_lem : (input : Bytes) → hash_all h input ≡ h.hash input
  hash_all_lem input =
      rw
        (
          h.digest_hash_lem (h.update_hash h.create input),
          h.absorbed-update_hash h.create input,
          h.absorbed-create,
        )
        refl

  shortened_lem : (key : Bytes) → shortened h key ≡ hmac_key key
  unfolding hmac_key
  shortened_lem key = rw (hash_all_lem key) refl

  hmac_key-fits :
      (key : Bytes)
      → ((input : Bytes) → length (h.hash input) ≤ h.block_size)
      → length (hmac_key key) ≤ h.block_size
  unfolding hmac_key
  hmac_key-fits key short = elim (Bool-cases (ltb h.block_size (length key))) [
    | inl long ↦ rw long (short key)
    | inr fits ↦ rw fits (ground arith)
  ]

  -- What the inner hash has absorbed.
  absorbed_lem :
      (parts : List Bytes) (mac : Hmac h)
      → h.absorbed ((update_all h mac parts).message_hasher)
        ≡ h.absorbed mac.message_hasher ++ joined parts
  unfolding update
  absorbed_lem [] mac = sym (append-nil (h.absorbed mac.message_hasher))
  absorbed_lem (input ∷ parts) mac =
      absorbed_lem parts (update h mac input)
      ∙ rw (h.absorbed-update_hash mac.message_hasher input)
          (append_assoc (h.absorbed mac.message_hasher) input (joined parts))

  outer_lem :
      (parts : List Bytes) (mac : Hmac h) → (update_all h mac parts).o_key_pad ≡ mac.o_key_pad
  unfolding update
  outer_lem [] mac = refl
  outer_lem (input ∷ parts) mac = outer_lem parts (update h mac input)

  -- If no hash is longer than a block, then for every key, and data that comes in any number of
  -- pieces, the digest is the HMAC of RFC 2104 of the key and the joined pieces.
  pub digest_lem :
      ((input : Bytes) → length (h.hash input) ≤ h.block_size)
      → (key : Bytes) (parts : List Bytes)
      → digest h (update_all h (new_hmac h key) parts) ≡ rfc2104 key (joined parts)
  unfolding digest new_hmac update rfc2104
  digest_lem short key parts =
      let fits = hmac_key-fits key short in
      let mac = new_hmac h key in
      rw
        (
          outer_lem parts mac,
          h.digest_hash_lem (update_all h mac parts).message_hasher,
          absorbed_lem parts mac,
          h.absorbed-update_hash h.create (xor_all h 0x36 (padded h (shortened h key))),
          h.absorbed-create,
          shortened_lem key,
          pad_padded 0x36 (hmac_key key) fits,
          pad_padded 0x5c (hmac_key key) fits,
        )
        (hash_all_lem _)
