-- ===== src/Crypto/Hmac.antt =====
-- packages/crypto/src/hmac.ts, over the interface of packages/crypto/src/hash.ts.
pub mod Reference
mod Tests
use Prim.Native.Nat.{bit_xor}
use cosmjs.Prelude.{
  ℕ, ◌+◌, ◌-◌, ◌≡◌, List, [], ◌∷◌, ◌++◌, map, ltb, if◌then◌else◌, length, replicate, Bytes,
}

-- The interface HashFunction of an incremental hash, with its constructor; the objects are states.
-- `absorbed` and `hash` say what it computes: the hash of all data so far.
pub record HashFunction : Type 1 where
  pub S : Type 0
  pub block_size : ℕ
  pub create : S
  pub update_hash : S → Bytes → S
  pub digest_hash : S → Bytes
  pub absorbed : S → Bytes
  pub hash : Bytes → Bytes
  pub absorbed-create : absorbed create ≡ []
  pub absorbed-update_hash :
      (s : S) (input : Bytes) → absorbed (update_hash s input) ≡ absorbed s ++ input
  pub digest_hash_lem : (s : S) → digest_hash s ≡ hash (absorbed s)

module _ (h : HashFunction) where
  open h use {S, create, update_hash, digest_hash}

  pub record Hmac : Type 0 where
    pub block_size : ℕ
    pub message_hasher : S
    pub o_key_pad : Bytes
    pub i_key_pad : Bytes

  -- `this.hash`
  abbrev pub hash_all : Bytes → Bytes
  hash_all input = digest_hash (update_hash create input)

  abbrev pub shortened : Bytes → Bytes
  shortened key = if ltb h.block_size (length key) then hash_all key else key

  abbrev pub padded : Bytes → Bytes
  padded key =
      if ltb (length key) h.block_size then key ++ replicate (h.block_size - length key) 0 else key

  abbrev pub xor_all : ℕ → Bytes → Bytes
  xor_all pad key = map (λ b. bit_xor b pad) key

  unfoldable pub update : Hmac → Bytes → Hmac
  update mac input = record mac { message_hasher = update_hash mac.message_hasher input }

  -- The constructor.
  unfoldable pub new_hmac : Bytes → Hmac
  unfolding update
  new_hmac original_key =
      let key = padded (shortened original_key) in
      update
        (record {
          block_size = h.block_size;
          message_hasher = create;
          o_key_pad = xor_all 0x5c key;
          i_key_pad = xor_all 0x36 key;
        })
        (xor_all 0x36 key)

  unfoldable pub digest : Hmac → Bytes
  digest mac = hash_all (mac.o_key_pad ++ digest_hash mac.message_hasher)

  -- Data in any number of pieces.
  abbrev pub update_all : Hmac → List Bytes → Hmac
  update_all mac [] = mac
  update_all mac (input ∷ more) = update_all (update mac input) more
