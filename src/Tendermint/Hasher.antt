-- ===== src/Tendermint/Hasher.antt =====
-- packages/tendermint-rpc/src/comet38/hasher.ts: the Merkle root of a block header. The hash
-- function of the crypto package is a parameter.
pub mod Split
pub mod Leaves
pub mod Root
mod Tests
use cosmjs.Prelude.{
  ℕ, zero, suc, ◌+◌, ◌/◌, ◌^◌, not, Option, none, some, List, [], ◌∷◌, ◌++◌, ltb, if◌then◌else◌,
  length, take, drop, Result, ◌>>=◌, ◌>>◌, throw_if, ok, throws, Bytes, split, out_of_fuel,
}
use cosmjs.Tendermint.Encodings.{
  Version, Time, BlockId, encode_version, encode_string, encode_uvarint, encode_time,
  encode_block_id, encode_bytes,
}

-- `Math.floor(Math.log2(n))` for an integer from 1 on; it is at most `n`, which bounds the
-- recursion.
unfoldable pub floor_log2 : ℕ → ℕ → ℕ
floor_log2 zero n = 0
floor_log2 (suc fuel) n = let half = floor_log2 fuel (n / 2) in if ltb n 2 then 0 else suc half

unfoldable pub get_split_point : ℕ → Result ℕ
get_split_point n = do
  throw_if (ltb n 1) "Cannot split an empty tree"
  let largest_power_of2 = 2 ^ floor_log2 n n
  ok (if ltb largest_power_of2 n then largest_power_of2 else largest_power_of2 / 2)

pub record Header : Type 0 where
  pub version : Version
  -- the bytes that `toUtf8` makes of the chain id
  pub chain_id : Bytes
  pub height : ℕ
  pub time : Time
  pub last_block_id : Option BlockId
  pub last_commit_hash : Bytes
  pub data_hash : Bytes
  pub validators_hash : Bytes
  pub next_validators_hash : Bytes
  pub consensus_hash : Bytes
  pub app_hash : Bytes
  pub last_results_hash : Bytes
  pub evidence_hash : Bytes
  pub proposer_address : Bytes

-- `encodeBytes` of each, in order.
unfoldable pub encode_each : List Bytes → Result (List Bytes)
encode_each [] = ok []
encode_each (x ∷ xs) = do e ← encode_bytes x; es ← encode_each xs; ok (e ∷ es)

abbrev pub byte_fields : Header → List Bytes
byte_fields h =
    h.last_commit_hash ∷ h.data_hash ∷ h.validators_hash ∷ h.next_validators_hash ∷ h.consensus_hash
    ∷ h.app_hash ∷ h.last_results_hash ∷ h.evidence_hash ∷ h.proposer_address ∷ []

module _ (sha256 : Bytes → Bytes) where
  unfoldable pub hash_leaf : Bytes → Bytes
  hash_leaf leaf = sha256 (0 ∷ leaf)

  unfoldable pub hash_inner : Bytes → Bytes → Bytes
  hash_inner left right = sha256 (1 ∷ (left ++ right))

  -- `hashTree`; each half is shorter than the whole, whose length bounds the depth.
  unfoldable pub hash_tree_from : ℕ → List Bytes → Result Bytes
  hash_tree_from fuel [] = throws "Cannot hash empty tree"
  hash_tree_from fuel (x ∷ []) = ok (hash_leaf x)
  hash_tree_from zero (x ∷ y ∷ xs) = throws out_of_fuel
  hash_tree_from (suc fuel) (x ∷ y ∷ xs) = do
    slice_point ← get_split_point (length (x ∷ y ∷ xs))
    left ← hash_tree_from fuel (take slice_point (x ∷ y ∷ xs))
    right ← hash_tree_from fuel (drop slice_point (x ∷ y ∷ xs))
    ok (hash_inner left right)

  unfoldable pub hash_tree : List Bytes → Result Bytes
  hash_tree hashes = hash_tree_from (length hashes) hashes

  hash_fields : Header → BlockId → Result Bytes
  hash_fields header id = do
    rest ← encode_each (byte_fields header)
    hash_tree (
        encode_version header.version
        ∷ encode_string header.chain_id
        ∷ encode_uvarint header.height
        ∷ encode_time header.time
        ∷ encode_block_id id
        ∷ rest)

  unfoldable pub hash_block : Header → Result Bytes
  unfolding hash_fields
  hash_block header = elim header.last_block_id [
    | none ↦
        throws
          "Hashing a block header with no last block ID (i.e. header at height 1) is not supported."
    | some id ↦ hash_fields header id
  ]
